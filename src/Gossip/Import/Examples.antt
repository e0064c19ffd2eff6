-- ===== src/Gossip/Import/Examples.antt =====
-- Runs of an import.
use aethos_linux.Base.{
  saturating_add, ◌+◌, ◌≡◌, refl, true, List, [], ◌∷◌, ◌++◌, none, length, replicate, arith,
}
use aethos_linux.Base.Text.{Text, codes, text_eq, contains}
use aethos_linux.Base.Int.{pos, as_i64, as_u16}
use aethos_linux.Base.Result.{ok}
use aethos_linux.Hex.{bytes_to_hex_lower, is_valid_item_id}
use aethos_linux.Store.Types.{Row, Table, record_of}
use aethos_linux.Store.{find, min_expiry, is_pruned}
use aethos_linux.Store.View.{IsValid}
use aethos_linux.Store.Listing.{is_some}
use aethos_linux.Envelope.Examples.{crates, summary}
use aethos_linux.Envelope.Codec.{write_entries}
use aethos_linux.Envelope.Cbor.{text, bytes, entries_of}
use aethos_linux.Gossip.Types.{TransferObject}
use aethos_linux.Gossip.Import.{import_transfer_items, parse_object}
use aethos_linux.Gossip.Import.Stored.{import_transfer_items-verdicts, import_transfer_items-stored}
use aethos_linux.Gossip.Import.Forgets.{import_transfer_items-forgets}

abbrev local : Text
local = summary.to_wayfarer_id_hex

-- The bytes of an envelope.
abbrev pub payload : Text
payload = write_entries (
    entries_of (
      (text (codes "body"), bytes (codes "hi"))
      ∷ (text (codes "author_sig"), bytes (replicate 64 0))
      ∷ (text (codes "manifest_id"), bytes (replicate 32 7))
      ∷ (text (codes "author_pubkey"), bytes (replicate 32 9))
      ∷ (text (codes "to_wayfarer_id"), bytes (replicate 32 171))
      ∷ []))

-- An object whose envelope was built, under the hash of its bytes.
abbrev pub object : TransferObject
object = record {
  item_id = bytes_to_hex_lower (replicate 32 7);
  envelope_b64 = payload;
  expiry_unix_ms = 200_000;
  hop_count = 1;
}

parsed : parse_object crates local none none 1_000 object ≡ ok summary
unfolding parse_object is_valid_item_id
parsed = refl

abbrev objects : List TransferObject
objects = object ∷ object ∷ record object { expiry_unix_ms = 5 } ∷ []

import_transfer_items-verdicts_example :
    length (import_transfer_items crates local none none 1_000 [] objects).1.accepted_item_ids
      + length (import_transfer_items crates local none none 1_000 [] objects).1.rejected_items
    ≡ length objects
import_transfer_items-verdicts_example =
    import_transfer_items-verdicts crates local none none 1_000 [] objects

abbrev empty_table : Table
empty_table = []

-- The second of two equal objects is known by then, and the third is expired.
accepted :
    (import_transfer_items crates local none none 1_000 empty_table objects).1.accepted_item_ids
    ≡ object.item_id ∷ object.item_id ∷ []
unfolding import_transfer_items parse_object is_valid_item_id
accepted = refl

has_accepted :
    contains
      (import_transfer_items crates local none none 1_000 empty_table objects).1.accepted_item_ids
      object.item_id
    ≡ true
unfolding import_transfer_items parse_object is_valid_item_id contains text_eq
has_accepted = refl

import_transfer_items-stored_example :
    is_some (
      find object.item_id
        (import_transfer_items crates local none none 1_000 empty_table objects).0)
    ≡ true
unfolding find text_eq
import_transfer_items-stored_example =
    import_transfer_items-stored crates local none none 1_000 empty_table objects (tt, tt)
      ((omega arith, refl), ((omega arith, refl), ((omega arith, refl), tt))) object.item_id
      has_accepted refl

-- A row of the object that is about to expire.
abbrev pub row : Row
row = record {
  item_id = object.item_id;
  envelope_b64 = payload;
  expiry_unix_ms = pos 20_000;
  hop_count = pos 0;
  recorded_at_unix_ms = pos 1;
}

abbrev one_row : Table
one_row = row ∷ []

-- An object that is expired.
abbrev other : TransferObject
other = record object { expiry_unix_ms = 5 }

one_row-IsValid : IsValid one_row
unfolding find
one_row-IsValid = ((refl, tt), (((omega arith, omega arith), (omega arith, omega arith)), tt))

import_transfer_items-forgets_example :
    (contains
        (import_transfer_items crates local none none 1_000 one_row
          ((other ∷ []) ++ object ∷ object ∷ [])).1.accepted_item_ids
        object.item_id
      ≡ true)
    × (find object.item_id
          (import_transfer_items crates local none none 1_000 one_row
            ((other ∷ []) ++ object ∷ object ∷ [])).0
        ≡ none)
unfolding find text_eq bytes_to_hex_lower record_of as_u16 is_pruned min_expiry as_i64
    saturating_add
import_transfer_items-forgets_example =
    import_transfer_items-forgets crates local none none 1_000 one_row (other ∷ []) object
      (object ∷ []) row summary one_row-IsValid refl refl refl parsed refl refl
