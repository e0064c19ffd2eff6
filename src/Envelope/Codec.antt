-- ===== src/Envelope/Codec.antt =====
-- A codec of flat maps, to run the envelope protocol with: a text is its length with 96 added and
-- its bytes, as CBOR writes a short one.
use aethos_linux.Base.{
  ℕ, zero, suc, ◌+◌, ◌-◌, ◌<◌, ◌≤◌, ◌≡◌, refl, ap, true, leb, ◌==◌, [], ◌∷◌, ◌++◌, Option, none,
  some, if◌then◌else◌, take, drop, length, length-append, arith,
}
use aethos_linux.Base.Int.{pos, negsuc}
use aethos_linux.Base.Text.{Text, codes}
use aethos_linux.Base.Result.{Result, ok, err}
use aethos_linux.Envelope.Cbor.{
  Value, Entries, integer, bytes, text, array, map_value, other, no_entries, entry_first,
}
use aethos_linux.Envelope.Canonical.{IsScalar, IsText, AreFlat}

abbrev write_scalar : Value → Text
write_scalar (text t) = (96 + length t) ∷ t
write_scalar (bytes b) = 64 ∷ length b ∷ b
write_scalar (integer (pos n)) = 0 ∷ n ∷ []
write_scalar (integer (negsuc n)) = 32 ∷ n ∷ []
write_scalar value = []

abbrev pub write_entries : Entries → Text
write_entries no_entries = 255 ∷ []
write_entries (entry_first key value entries) =
    160 ∷ (write_scalar key ++ (write_scalar value ++ write_entries entries))

abbrev pub write : Value → Result Text Text
write (map_value entries) = ok (write_entries entries)
write value = ok (write_scalar value)

abbrev read_scalar : Text → Option (Value × Text)
read_scalar [] = none
read_scalar (tag ∷ []) = if leb 96 tag then some (text [], []) else none
read_scalar (tag ∷ n ∷ l) =
    if leb 96 tag
    then some (text (take (tag - 96) (n ∷ l)), drop (tag - 96) (n ∷ l))
    else if tag == 64
    then some (bytes (take n l), drop n l)
    else if tag == 0
    then some (integer (pos n), l)
    else some (integer (negsuc n), l)

-- Reads at most as many entries as its first argument.
abbrev read_entries : ℕ → Text → Option Entries
read_entries zero raw = none
read_entries (suc fuel) [] = none
read_entries (suc fuel) (tag ∷ raw) =
    if tag == 255 then some no_entries else elim (read_scalar raw) [
      | none ↦ none
      | some key ↦ elim (read_scalar key.1) [
        | none ↦ none
        | some value ↦ elim (read_entries fuel value.1) [
          | none ↦ none
          | some entries ↦ some (entry_first key.0 value.0 entries)
        ]
      ]
    ]

abbrev pub read : Text → Result Text (Value × ℕ)
read raw = elim (read_entries (length raw) raw) [
  | none ↦ err (codes "not a map")
  | some entries ↦ ok (map_value entries, length raw)
]

take-append : (a b : Text) → take (length a) (a ++ b) ≡ a
take-append [] b = refl
take-append (x ∷ a) b = ap (λ l. x ∷ l) (take-append a b)

drop-append : (a b : Text) → drop (length a) (a ++ b) ≡ b
drop-append [] b = refl
drop-append (x ∷ a) b = drop-append a b

read_scalar-write_scalar :
    (value : Value) (rest : Text)
    → IsScalar value
    → read_scalar (write_scalar value ++ rest) ≡ some (value, rest)
read_scalar-write_scalar (text []) [] h = refl
read_scalar-write_scalar (text []) (x ∷ rest) h = refl
read_scalar-write_scalar (text (c ∷ t)) rest h =
    let big : leb 96 (96 + suc (length t)) ≡ true = ground arith in
    let back : 96 + suc (length t) - 96 ≡ suc (length t) = omega arith in
    rw big (rw back (λ i. some (text (take-append (c ∷ t) rest i), drop-append (c ∷ t) rest i)))
read_scalar-write_scalar (bytes b) rest h =
    λ i. some (bytes (take-append b rest i), drop-append b rest i)
read_scalar-write_scalar (integer n) rest h = absurd h
read_scalar-write_scalar (array items) rest h = absurd h
read_scalar-write_scalar (map_value _) rest h = absurd h
read_scalar-write_scalar (other raw) rest h = absurd h

count : Entries → ℕ
count no_entries = 0
count (entry_first key value entries) = suc (count entries)

count-le : (entries : Entries) → suc (count entries) ≤ length (write_entries entries)
unfolding count
count-le no_entries = omega arith
count-le (entry_first key value entries) = omega (
  arith,
  count-le entries,
  length-append (write_scalar key) (write_scalar value ++ write_entries entries),
  length-append (write_scalar value) (write_entries entries),
)

IsText-IsScalar : (value : Value) → IsText value → IsScalar value
IsText-IsScalar (text t) h = tt
IsText-IsScalar (bytes b) h = tt
IsText-IsScalar (integer n) h = h
IsText-IsScalar (array items) h = h
IsText-IsScalar (map_value _) h = h
IsText-IsScalar (other raw) h = h

read_entries-write_entries :
    (entries : Entries) (fuel : ℕ)
    → AreFlat entries
    → suc (count entries) ≤ fuel
    → read_entries fuel (write_entries entries) ≡ some entries
unfolding count
read_entries-write_entries _ zero flat h = absurd (ground (arith, h))
read_entries-write_entries no_entries (suc fuel) flat h = refl
read_entries-write_entries (entry_first key value entries) (suc fuel) (is_text, is_scalar, flat) h =
    rw
      (read_scalar-write_scalar key (write_scalar value ++ write_entries entries)
        (IsText-IsScalar key is_text))
      (rw (read_scalar-write_scalar value (write_entries entries) is_scalar)
        (rw (read_entries-write_entries entries fuel flat (omega arith)) refl))

pub written :
    (entries : Entries)
    → AreFlat entries
    → (raw : Text) × (write (map_value entries) ≡ ok raw)
      × (read raw ≡ ok (map_value entries, length raw))
written entries flat = (
  write_entries entries,
  refl,
  rw
      (
        read_entries-write_entries entries (length (write_entries entries)) flat (count-le entries),
        read,
      )
      refl,
)

pub key_written : (key : Text) → length key < 24 → write (text key) ≡ ok ((96 + length key) ∷ key)
key_written key short = refl
