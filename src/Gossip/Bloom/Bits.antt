-- ===== src/Gossip/Bloom/Bits.antt =====
-- One bit of the filter.
use aethos_linux.Base.{
  ℕ, zero, suc, ◌/◌, ◌%◌, ◌^◌, &&-eq-true, ◌≢◌, ◌<◌, ◌≡◌, refl, sym, ap, ◌∙◌, Bool, true, not, ◌&&◌,
  ◌||◌, [], ◌∷◌, ◌==◌, ltb, length, set, get_elem?-set_self, get_elem?-set_ne, length-set, arith,
  ℕ_discrete,
}
use Prim.Native.Nat.{bit_and, bit_or}
use aethos_linux.Base.Text.{Text}
use aethos_linux.Hex.{AreBytes}
use aethos_linux.Gossip.Bloom.{byte_at, set_bit, has_bit}

-- Every value below a bound, by evaluation.
each_below : (ℕ → Bool) → ℕ → Bool
each_below test zero = true
each_below test (suc bound) = each_below test bound && test bound

each_below-true :
    (test : ℕ → Bool) (bound n : ℕ) → each_below test bound ≡ true → n < bound → test n ≡ true
unfolding each_below
each_below-true test zero n h lt = absurd (omega arith)
each_below-true test (suc bound) n h lt = elim (ℕ_discrete n bound) [
  | yes e ↦ ap test e ∙ ground (arith, h)
  | no ne ↦ each_below-true test bound n (ground (arith, h)) (omega arith)
]

abbrev test_bit : ℕ → ℕ → Bool
test_bit byte offset = not (bit_and byte (2 ^ offset) == 0)

abbrev with_bit : ℕ → ℕ → ℕ
with_bit byte offset = bit_or byte (2 ^ offset)

-- Setting a bit sets it, keeps a bit that is set, and stays a byte.
abbrev bit_laws : ℕ → ℕ → ℕ → Bool
bit_laws byte offset other =
    test_bit (with_bit byte offset) offset
    && (not (test_bit byte other) || test_bit (with_bit byte offset) other)
    && ltb (with_bit byte offset) 256

bit_table :
    each_below
      (λ byte. each_below (λ offset. each_below (λ other. bit_laws byte offset other) 8) 8)
      256
    ≡ true
unfolding each_below
bit_table = refl

bit_law :
    (byte offset other : ℕ)
    → byte < 256
    → offset < 8
    → other < 8
    → bit_laws byte offset other ≡ true
bit_law byte offset other b o p =
    each_below-true _ 8 other
      (each_below-true _ 8 offset (each_below-true _ 256 byte bit_table b) o) p

-- A filter of `n` bytes.
abbrev pub IsFilter : ℕ → Text → Type 0
IsFilter n bloom = (length bloom ≡ n) × AreBytes bloom

byte_at-set_self : (bloom : Text) (i v : ℕ) → i < length bloom → byte_at (set bloom i v) i ≡ v
byte_at-set_self bloom i v h = rw (get_elem?-set_self bloom i v h, byte_at) refl

byte_at-set_ne : (bloom : Text) (i j v : ℕ) → i ≢ j → byte_at (set bloom i v) j ≡ byte_at bloom j
byte_at-set_ne bloom i j v h = rw (get_elem?-set_ne bloom i j v h, byte_at) refl

byte_at-lt : (bloom : Text) (i : ℕ) → AreBytes bloom → byte_at bloom i < 256
byte_at-lt [] i h = omega arith
byte_at-lt (b ∷ bloom) zero h = h.0
byte_at-lt (b ∷ bloom) (suc i) h = byte_at-lt bloom i h.1

set-AreBytes : (bloom : Text) (i v : ℕ) → v < 256 → AreBytes bloom → AreBytes (set bloom i v)
set-AreBytes [] i v lt h = tt
set-AreBytes (b ∷ bloom) zero v lt h = (lt, h.1)
set-AreBytes (b ∷ bloom) (suc i) v lt h = (h.0, set-AreBytes bloom i v lt h.1)

-- The law at the byte of a bit.
law_at :
    (bloom : Text) (bit other : ℕ)
    → AreBytes bloom
    → bit_laws (byte_at bloom (bit / 8)) (bit % 8) (other % 8) ≡ true
law_at bloom bit other h =
    bit_law (byte_at bloom (bit / 8)) (bit % 8) (other % 8) (byte_at-lt bloom (bit / 8) h)
      (omega arith) (omega arith)

pub set_bit-IsFilter :
    (n : ℕ) (bloom : Text) (bit : ℕ) → IsFilter n bloom → IsFilter n (set_bit bloom bit)
unfolding set_bit
set_bit-IsFilter n bloom bit (size, are) =
    let law = law_at bloom bit bit are in
    (
      length-set bloom (bit / 8) (with_bit (byte_at bloom (bit / 8)) (bit % 8)) ∙ size,
      set-AreBytes bloom (bit / 8) (with_bit (byte_at bloom (bit / 8)) (bit % 8))
          (ground (arith, law)) are,
    )

pub has_bit-set_bit_self :
    (n : ℕ) (bloom : Text) (bit : ℕ)
    → IsFilter n bloom
    → bit / 8 < n
    → has_bit (set_bit bloom bit) bit ≡ true
unfolding set_bit has_bit
has_bit-set_bit_self n bloom bit (size, are) inside =
    let law = law_at bloom bit bit are in
    rw
      (byte_at-set_self bloom (bit / 8) (with_bit (byte_at bloom (bit / 8)) (bit % 8))
        (omega (arith, size, inside)))
      (&&-eq-true _ _ (&&-eq-true _ _ law).0).0

pub has_bit-set_bit :
    (n : ℕ) (bloom : Text) (bit other : ℕ)
    → IsFilter n bloom
    → bit / 8 < n
    → has_bit bloom other ≡ true
    → has_bit (set_bit bloom bit) other ≡ true
unfolding set_bit has_bit
has_bit-set_bit n bloom bit other (size, are) inside has = elim (ℕ_discrete (bit / 8) (other / 8)) [
  | no ne ↦
      rw
        (byte_at-set_ne bloom (bit / 8) (other / 8) (with_bit (byte_at bloom (bit / 8)) (bit % 8))
          ne)
        has
  | yes same ↦
      let law = law_at bloom bit other are in
      let kept = implied _ _ (&&-eq-true _ _ (&&-eq-true _ _ law).0).1 (rw (← same) at has) in
      ap
        (λ z.
          test_bit (byte_at (set bloom (bit / 8) (with_bit (byte_at bloom (bit / 8)) (bit % 8))) z)
            (other % 8))
        (sym same)
      ∙ ap (λ b. test_bit b (other % 8))
          (byte_at-set_self bloom (bit / 8) (with_bit (byte_at bloom (bit / 8)) (bit % 8))
            (omega (arith, size, inside)))
      ∙ kept
]
  where
    implied : (a b : Bool) → (not a || b) ≡ true → a ≡ true → b ≡ true
    implied a b h k = ground (arith, h, k)
