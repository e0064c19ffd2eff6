-- ===== src/Base/Sort/Order.antt =====
-- Orders given by a Boolean test: an ordered key type, and the strict weak orders that comparisons
-- by several keys in turn make up.
use aethos_linux.Base.{
  ℕ, ◌≡◌, ◌↔◌, refl, Bool, true, false, arith, ltb, ◌==◌, ==_iff, if◌then◌else◌,
}
use aethos_linux.Base.Int.{ℤ, ltb_ℤ, eqb_ℤ, eqb_ℤ_iff}
use aethos_linux.Base.Text.{
  Text, text_eq, text_lt, text_eq_iff, text_lt_asym, text_lt_trans, text_lt_total,
}

-- A type with `Ord` in Rust: a strict total order and its equality.
pub record Ord (K : Type 0) : Type 0 where
  pub before : K → K → Bool
  pub same : K → K → Bool
  pub same_iff : (a b : K) → (same a b ≡ true) ↔ (a ≡ b)
  pub asym : (a b : K) → before a b ≡ true → before b a ≡ false
  pub trans : (a b c : K) → before a b ≡ true → before b c ≡ true → before a c ≡ true
  pub total : (a b : K) → same a b ≡ false → before a b ≡ false → before b a ≡ true

pub nat_asym : (a b : ℕ) → ltb a b ≡ true → ltb b a ≡ false
nat_asym a b h = ground arith

pub nat_trans : (a b c : ℕ) → ltb a b ≡ true → ltb b c ≡ true → ltb a c ≡ true
nat_trans a b c h k = ground arith

pub nat_total : (a b : ℕ) → (a == b) ≡ false → ltb a b ≡ false → ltb b a ≡ true
nat_total a b h k = ground arith

instance abbrev pub nat_ord : Ord ℕ
nat_ord = record {
  before = ltb;
  same = ◌==◌;
  same_iff = ==_iff;
  asym = nat_asym;
  trans = nat_trans;
  total = nat_total;
}

pub int_asym : (a b : ℤ) → ltb_ℤ a b ≡ true → ltb_ℤ b a ≡ false
int_asym a b h = ground arith

pub int_trans : (a b c : ℤ) → ltb_ℤ a b ≡ true → ltb_ℤ b c ≡ true → ltb_ℤ a c ≡ true
int_trans a b c h k = ground arith

pub int_total : (a b : ℤ) → eqb_ℤ a b ≡ false → ltb_ℤ a b ≡ false → ltb_ℤ b a ≡ true
int_total a b h k = ground arith

instance abbrev pub int_ord : Ord ℤ
int_ord = record {
  before = ltb_ℤ;
  same = eqb_ℤ;
  same_iff = eqb_ℤ_iff;
  asym = int_asym;
  trans = int_trans;
  total = int_total;
}

instance abbrev pub text_ord : Ord Text
text_ord = record {
  before = text_lt;
  same = text_eq;
  same_iff = text_eq_iff;
  asym = text_lt_asym;
  trans = text_lt_trans;
  total = text_lt_total;
}

module _ {K : Type 0} (o : Ord K) where
  pub same_refl : (a : K) → o.same a a ≡ true
  same_refl a = (o.same_iff a a).1 refl

  same_symm : (a b : K) → o.same a b ≡ false → o.same b a ≡ false
  same_symm a b h = ground (arith, o.same_iff a b, o.same_iff b a)

  pub flip_total : (a b : K) → o.same a b ≡ false → o.before b a ≡ false → o.before a b ≡ true
  flip_total a b h k = o.total b a (same_symm a b h) k

  -- What is not before is the same or after.
  pub not-before_trans :
      (a b c : K) → o.before b a ≡ false → o.before c b ≡ false → o.before c a ≡ false
  not-before_trans a b c h k = ground (arith, o.same_iff c b, o.total c b, o.trans b c a)

-- `>` in place of `<`.
abbrev pub dual : {K : Type 0} → Ord K → Ord K
dual o = record {
  before = λ a b. o.before b a;
  same = o.same;
  same_iff = o.same_iff;
  asym = λ a b. o.asym b a;
  trans = λ a b c h k. o.trans c b a k h;
  total = flip_total o;
}

-- What `sort_by` needs of "ranks strictly before".
pub record IsStrictWeak {A : Type 0} (lt : A → A → Bool) : Type 0 where
  pub asym : (a b : A) → lt a b ≡ true → lt b a ≡ false
  pub neg_trans : (a b c : A) → lt b a ≡ false → lt c b ≡ false → lt c a ≡ false

-- `if l.key != r.key { return l.key < r.key; }`, and the later tests where the keys are equal.
abbrev pub then_by : {A K : Type 0} → Ord K → (A → K) → (A → A → Bool) → A → A → Bool
then_by o key rest l r = if o.same (key l) (key r) then rest l r else o.before (key l) (key r)

module _ {A K : Type 0} (o : Ord K) (key : A → K) {rest : A → A → Bool}
    (w : IsStrictWeak rest) where
  then_by-asym : (a b : A) → then_by o key rest a b ≡ true → then_by o key rest b a ≡ false
  then_by-asym a b h = ground (
    arith,
    o.same_iff (key a) (key b),
    o.same_iff (key b) (key a),
    o.asym (key a) (key b),
    w.asym a b,
  )

  then_by-neg_trans :
      (a b c : A)
      → then_by o key rest b a ≡ false
      → then_by o key rest c b ≡ false
      → then_by o key rest c a ≡ false
  then_by-neg_trans a b c h k = ground (
    arith,
    o.same_iff (key b) (key a),
    o.same_iff (key c) (key b),
    o.same_iff (key c) (key a),
    o.total (key b) (key a),
    o.total (key c) (key b),
    o.asym (key a) (key b),
    o.asym (key b) (key c),
    o.trans (key a) (key b) (key c),
    o.asym (key a) (key c),
    w.neg_trans a b c,
  )

  -- A test by one more key in front keeps the order strict and weak.
  pub then_by-IsStrictWeak : IsStrictWeak (then_by o key rest)
  then_by-IsStrictWeak = record { asym = then_by-asym; neg_trans = then_by-neg_trans }

-- The order by one key alone.
pub before-IsStrictWeak :
    {A K : Type 0} (o : Ord K) (key : A → K) → IsStrictWeak (λ l r. o.before (key l) (key r))
before-IsStrictWeak o key = record {
  asym = λ a b. o.asym (key a) (key b);
  neg_trans = λ a b c. not-before_trans o (key a) (key b) (key c);
}
