-- ===== src/Tests/Bookmarks.antt =====
-- Bookmarks at concrete inputs.
use zorya.Common.{
  is_some, ◌+◌, ◌^◌, ◌<◌, any, retain, find, Bool, ltb, ◌&&◌, ℕ, ◌<◌, ◌≡◌, ◌⊎◌, ◌≢◌, refl, true,
  false, none, some, List, [], ◌∷◌, All, ok, arith,
}
use zorya.Record.{
  new, take_bytes, take_word, take_text, is_finished, same_bytes, Bytes, is_utf8, to_le_bytes,
  from_le_bytes, checksum64,
}
use zorya.Bookmarks.{
  BookmarksSnapshot, default, validate_title, validate_location, validate_bookmarks,
  validate_snapshot,
}
use zorya.Bookmarks.Shape.{IsValid, IsText}
use zorya.Bookmarks.Edit.{bookmark, add_bookmark}
use zorya.Bookmarks.Edits.{
  Edit, add, update, remove, advance_generation, edits, validate_snapshot-edits, default-IsValid,
}
use zorya.Bookmarks.Lookup.{bookmark-add_bookmark}
use zorya.Bookmarks.Encode.{encode_entries, encode_payload, encode_bookmarks}
use zorya.Bookmarks.Decode.{decode_bookmarks, decode_payload, decode_entries, decode_entry}
use zorya.Bookmarks.Sound.{decode_bookmarks-ok}
use zorya.Record.Words.{AreBytes}
use zorya.Bookmarks.RoundTrip.{decode_bookmarks-encode_bookmarks}
use zorya.Bookmarks.Stored.{bookmarks_codec, bookmarks_laws}
use zorya.Store.Directory.{
  Directory, io, sync_pending, other_kind, unexpected_generation, other_entry, generation_file,
  contents, discover_generations_with_reserve, discover, sort_descending, insert_descending,
}
use zorya.Store.Newest.{IsEmpty, IsNewest, load-ok}
use zorya.Store.Load.{Loaded, no_read_faults, load, load_found, load_newest, read_generation}
use zorya.Store.Save.{
  no_save_faults, Disk, SaveFaults, Saved, save, examine, discover_again, publish_record,
  create_pending_file, link_generation, finish, expired, remove_generations,
}
use zorya.Store.Files.{save-KeepsOnError}
use zorya.Store.Names.{
  bookmarks_file_name, parse_generation_file_name, parse_generation_file_name-bookmarks_file_name,
}
use zorya.Store.Reload.{load-save}
use zorya.Store.Returns.{save_returns}

-- "Zoë" at "a://b", and an untitled bookmark at "c".
abbrev title : Bytes
title = 90 ∷ 111 ∷ 195 ∷ 171 ∷ []

abbrev location : Bytes
location = 97 ∷ 58 ∷ 47 ∷ 47 ∷ 98 ∷ []

abbrev two : BookmarksSnapshot
two = record {
  generation = 0;
  next_bookmark_id = 5;
  bookmarks =
      record { id = 2; title = title; location = location }
      ∷ record { id = 4; title = []; location = 99 ∷ [] }
      ∷ [];
}

abbrev two_7 : BookmarksSnapshot
two_7 = record two { generation = 7 }

two-IsValid : IsValid two
two-IsValid = record {
  bounded = omega arith;
  next_positive = omega arith;
  next_fits = omega arith;
  entries = (
    omega arith,
    omega arith,
    omega arith,
    omega arith,
    omega arith,
    (omega arith, omega arith, omega arith, omega arith, omega arith, tt),
  );
}

two_texts : All IsText two.bookmarks
unfolding is_utf8
two_texts = ((refl, refl), ((refl, refl), tt))

decode_bookmarks-encode_bookmarks_example :
    (bytes : Bytes) × (encode_bookmarks two 7 ≡ ok bytes)
    × (decode_bookmarks bytes 7 ≡ ok (record two { generation = 7 }))
decode_bookmarks-encode_bookmarks_example =
    decode_bookmarks-encode_bookmarks two 7 two-IsValid two_texts (omega arith) (omega arith)

-- A refused edit among others.
abbrev some_edits : List Edit
some_edits =
    add title location
    ∷ add title []
    ∷ update 1 [] location
    ∷ add [] location
    ∷ remove 1
    ∷ advance_generation 0 3
    ∷ []

validate_snapshot-edits_example : validate_snapshot (edits some_edits default) ≡ ok tt
validate_snapshot-edits_example = validate_snapshot-edits some_edits default default-IsValid

abbrev after_add : BookmarksSnapshot
after_add = (add_bookmark title location two).1

bookmark-add_bookmark_example :
    (bookmark two 5 ≡ none)
    × (bookmark after_add 5 ≡ some (record { id = 5; title = title; location = location }))
    × ((other : ℕ) → other ≢ 5 → bookmark after_add other ≡ bookmark two other)
unfolding add_bookmark validate_title validate_location
bookmark-add_bookmark_example =
    bookmark-add_bookmark title location two after_add 5 two-IsValid refl

all_below : Bytes → Bool
all_below [] = true
all_below (b ∷ bs) = ltb b 256 && all_below bs

all_bytes : (bytes : Bytes) → all_below bytes ≡ true → AreBytes bytes
unfolding all_below
all_bytes [] h = tt
all_bytes (b ∷ bs) h = (ground arith, all_bytes bs (ground arith))

-- The record of `two` at generation 7.
abbrev record_7 : Bytes
record_7 =
    90 ∷ 82 ∷ 89 ∷ 66 ∷ 77 ∷ 75 ∷ 48 ∷ 49 ∷ 1 ∷ 0 ∷ 0 ∷ 0 ∷ 7 ∷ 0 ∷ 0 ∷ 0 ∷ 0 ∷ 0 ∷ 0 ∷ 0 ∷ 5 ∷ 0
    ∷ 0 ∷ 0 ∷ 0 ∷ 0 ∷ 0 ∷ 0 ∷ 2 ∷ 0 ∷ 0 ∷ 0 ∷ 2 ∷ 0 ∷ 0 ∷ 0 ∷ 0 ∷ 0 ∷ 0 ∷ 0 ∷ 4 ∷ 0 ∷ 0 ∷ 0 ∷ 5 ∷ 0
    ∷ 0 ∷ 0 ∷ 90 ∷ 111 ∷ 195 ∷ 171 ∷ 97 ∷ 58 ∷ 47 ∷ 47 ∷ 98 ∷ 4 ∷ 0 ∷ 0 ∷ 0 ∷ 0 ∷ 0 ∷ 0 ∷ 0 ∷ 0 ∷ 0
    ∷ 0 ∷ 0 ∷ 1 ∷ 0 ∷ 0 ∷ 0 ∷ 99 ∷ 23 ∷ 186 ∷ 101 ∷ 23 ∷ 8 ∷ 127 ∷ 69 ∷ 6 ∷ []

record_7_bytes : AreBytes record_7
unfolding all_below
record_7_bytes = all_bytes record_7 refl

-- Its last bytes are the checksum, which the model computes.
decode_bookmarks-ok_example :
    IsValid two_7
    × All IsText two.bookmarks
    × (0 < two_7.generation)
    × (two_7.generation ≡ 7)
    × (encode_bookmarks two_7 7 ≡ ok record_7)
unfolding decode_bookmarks decode_payload decode_entries decode_entry take_bytes take_word take_text
    is_finished new same_bytes from_le_bytes checksum64 is_utf8 validate_title validate_location
decode_bookmarks-ok_example = decode_bookmarks-ok record_7 7 two_7 record_7_bytes refl

-- A file that is no record, as an interrupted disk might leave it, beside the record of generation 7.
abbrev directory : Directory
directory = other_entry ∷ generation_file 9 (0 ∷ []) ∷ generation_file 7 record_7 ∷ []

abbrev loaded_7 : Loaded BookmarksSnapshot
loaded_7 = record { snapshot = two_7; recovery = some (9 ∷ []) }

load-ok_example :
    (IsEmpty bookmarks_codec no_read_faults directory
      × (loaded_7 ≡ record { snapshot = default; recovery = none }))
    ⊎ IsNewest bookmarks_codec no_read_faults directory loaded_7
unfolding load load_found load_newest read_generation contents discover_generations_with_reserve
    discover sort_descending insert_descending decode_bookmarks decode_payload decode_entries
    decode_entry take_bytes take_word take_text is_finished new same_bytes from_le_bytes checksum64
    is_utf8 validate_title validate_location
load-ok_example = load-ok bookmarks_codec no_read_faults directory loaded_7 refl

abbrev disk : Disk
disk = record { entries = directory; next_pending = 1 }

-- The pending file cannot be synced.
abbrev failing : SaveFaults
failing = record no_save_faults { sync = some (other_kind 5) }

abbrev disk_after_failure : Disk
disk_after_failure = (save bookmarks_codec failing two_7 disk).1

save-KeepsOnError_example : contents 7 disk_after_failure.entries ≡ contents 7 disk.entries
unfolding save examine discover_again publish_record create_pending_file link_generation finish
    expired remove_generations unexpected_generation any retain find encode_bookmarks encode_payload
    encode_entries to_le_bytes validate_snapshot validate_bookmarks load load_found load_newest
    read_generation contents discover_generations_with_reserve discover sort_descending
    insert_descending decode_bookmarks decode_payload decode_entries decode_entry take_bytes
    take_word take_text is_finished new same_bytes from_le_bytes checksum64 is_utf8 validate_title
    validate_location
save-KeepsOnError_example =
    save-KeepsOnError bookmarks_codec failing 7 two_7 (λ entries. refl) (λ entries. refl) disk
      disk_after_failure (io sync_pending (other_kind 5)) refl

abbrev disk_after : Disk
disk_after = (save bookmarks_codec no_save_faults two_7 disk).1

abbrev saved_10 : Saved BookmarksSnapshot
saved_10 = record {
  snapshot = record two { generation = 10 };
  failed_generations = [];
  pending_remains = false;
}

load-save_example :
    load bookmarks_codec no_read_faults disk_after.entries
    ≡ ok (record { snapshot = record two { generation = 10 }; recovery = none })
unfolding save examine discover_again publish_record create_pending_file link_generation finish
    expired remove_generations unexpected_generation any retain find encode_bookmarks encode_payload
    encode_entries to_le_bytes validate_snapshot validate_bookmarks load load_found load_newest
    read_generation contents discover_generations_with_reserve discover sort_descending
    insert_descending decode_bookmarks decode_payload decode_entries decode_entry take_bytes
    take_word take_text is_finished new same_bytes from_le_bytes checksum64 is_utf8 validate_title
    validate_location
load-save_example =
    load-save bookmarks_codec bookmarks_laws no_save_faults two_7 disk disk_after saved_10
      (two_texts, omega arith) (λ w entries. refl) refl (omega arith)

directory-below : (g : ℕ) → is_some (contents g directory) ≡ true → g + 1 < 2 ^ 64
unfolding contents
directory-below g h = ground arith

save_returns_example :
    (saved : Saved BookmarksSnapshot) × (d' : Disk) × (save bookmarks_codec no_save_faults two_7
        disk
      ≡ (ok saved, d'))
unfolding validate_snapshot validate_bookmarks validate_title validate_location load load_found
    load_newest read_generation contents discover_generations_with_reserve discover sort_descending
    insert_descending decode_bookmarks decode_payload decode_entries decode_entry take_bytes
    take_word take_text is_finished new same_bytes from_le_bytes checksum64 is_utf8 any
save_returns_example =
    save_returns bookmarks_codec bookmarks_laws two_7 disk loaded_7 (two_texts, omega arith) refl
      refl refl (omega arith) (λ g. refl) directory-below

parse_generation_file_name-bookmarks_file_name_example :
    parse_generation_file_name (bookmarks_file_name 18446744073709551615)
    ≡ some 18446744073709551615
parse_generation_file_name-bookmarks_file_name_example =
    parse_generation_file_name-bookmarks_file_name 18446744073709551615 (omega arith) (omega arith)
