-- ===== src/Search/Files.antt =====
-- The files of a search reply: what is written of each, and what is read of it.
use soulseek_rs_lib.Base.{
  ℕ, ◌≡◌, refl, ◌∙◌, inl, inr, Option, none, some, Option-cases, Bool-cases, ◌==◌, if◌then◌else◌,
  false, List, [], ◌∷◌, ◌++◌, map, append-nil, append_assoc, length, length-append, All, arith,
}
use soulseek_rs_lib.Base.Text.{Text}
use soulseek_rs_lib.Base.Assoc.{Map, lookup, insert, nat_eq, lookup-insert}
use soulseek_rs_lib.Bytes.{le_bytes, length-le_bytes}
use soulseek_rs_lib.Message.{read_int8, read_int32, read_int64, read_string}
use soulseek_rs_lib.Message.Parses.{
  Parses, cursor, bind-Parses, last-Parses, read_int8-Parses, read_int64-Parses, read_string-Parses,
}
use soulseek_rs_lib.Message.Writes.{Writes, then-Writes, skip-Writes}
use soulseek_rs_lib.Message.Loop.{read_up_to, at_end, encode_all}
use soulseek_rs_lib.Listing.{SharedFileEntry, write_file}
use soulseek_rs_lib.Listing.RoundTrip.{
  FileFits, file_bytes, file_fields_bytes, write_file-Writes, count-Parses, empty-IsText,
  attributes-Parses,
}
use soulseek_rs_lib.Search.{
  FileEntry, File, write_entry, write_entries, insert_all, read_search_file,
}

-- An entry is written like a file of a listing.
abbrev pub shared : FileEntry → SharedFileEntry
shared f = record { name = f.name; size = f.size; attributes = f.attribs }

abbrev pub entry_bytes : FileEntry → List ℕ
entry_bytes f = file_bytes (shared f)

abbrev pub EntryFits : FileEntry → Type 0
EntryFits f = FileFits (shared f)

-- What the receiver makes of an entry.
abbrev pub file_of : Text → FileEntry → File
file_of username f = record {
  username = username;
  name = f.name;
  size = f.size;
  attribs = insert_all f.attribs [];
}

-- The value of the last pair with this code.
abbrev pub last_value : ℕ → List (ℕ × ℕ) → Option ℕ
last_value code [] = none
last_value code ((k, value) ∷ rest) = elim (last_value code rest) [
  | some later ↦ some later
  | none ↦ if k == code then some value else none
]

-- The file that the searcher has for an entry of this user.
abbrev pub Describes : Text → FileEntry → File → Type 0
Describes username f file =
    (file.username ≡ username)
    × (file.name ≡ f.name)
    × (file.size ≡ f.size)
    × ((code : ℕ) → lookup code file.attribs ≡ last_value code f.attribs)

abbrev pub DescribesAll : Text → List FileEntry → List File → Type 0
DescribesAll username [] [] = Unit
DescribesAll username [] (_ ∷ _) = ⊥
DescribesAll username (_ ∷ _) [] = ⊥
DescribesAll username (f ∷ fs) (file ∷ files) =
    Describes username f file × DescribesAll username fs files

abbrev or_else : Option ℕ → Option ℕ → Option ℕ
or_else (some a) b = some a
or_else none b = b

lookup-insert_all :
    (code : ℕ) (pairs : List (ℕ × ℕ)) (m : Map ℕ ℕ)
    → lookup code (insert_all pairs m) ≡ or_else (last_value code pairs) (lookup code m)
lookup-insert_all code [] m = refl
lookup-insert_all code ((k, value) ∷ rest) m =
    let later = lookup-insert_all code rest (insert k value m) in
    let here = lookup-insert k code value m in
    elim (Option-cases (last_value code rest)) [
      | inl e ↦ elim (Bool-cases (k == code)) [
        | inl h ↦ rw (later, e, here, h) refl
        | inr h ↦ rw (later, e, here, h) refl
      ]
      | inr (w, e) ↦ rw (later, e) refl
    ]

file_of-Describes : (username : Text) (f : FileEntry) → Describes username f (file_of username f)
unfolding lookup
file_of-Describes username f = (
  refl,
  refl,
  refl,
  λ code. lookup-insert_all code f.attribs [] ∙ end (last_value code f.attribs),
)
  where
    end : (o : Option ℕ) → or_else o none ≡ o
    end (some a) = refl
    end none = refl

pub map-DescribesAll :
    (username : Text) (files : List FileEntry)
    → DescribesAll username files (map (file_of username) files)
map-DescribesAll username [] = tt
map-DescribesAll username (f ∷ rest) =
    (file_of-Describes username f, map-DescribesAll username rest)

write_entry-Writes : (f : FileEntry) → Writes (write_entry f) (entry_bytes f)
unfolding write_entry
write_entry-Writes f = unfold write_file in write_file-Writes (shared f)

pub write_entries-Writes :
    (files : List FileEntry) → Writes (write_entries files) (encode_all entry_bytes files)
unfolding write_entries
write_entries-Writes [] = skip-Writes
write_entries-Writes (f ∷ rest) =
    then-Writes (write_entry f) (write_entries rest) (write_entry-Writes f)
      (write_entries-Writes rest)

read_search_file-Parses :
    (username : Text) (f : FileEntry)
    → EntryFits f
    → Parses (read_search_file username) (entry_bytes f) (file_of username f)
unfolding read_search_file
read_search_file-Parses username f fits =
    bind-Parses read_int8 _ (read_int8-Parses 1 (omega arith)) (
      bind-Parses read_string _ (read_string-Parses f.name fits.name_fits) (
        bind-Parses read_int64 _ (read_int64-Parses f.size fits.size_fits) (
          bind-Parses read_string _ (read_string-Parses [] empty-IsText) (
            bind-Parses read_int32 _ (count-Parses (length f.attribs) fits.count_fits) (
              last-Parses _
                (λ pairs. record {
                  username = username;
                  name = f.name;
                  size = f.size;
                  attribs = insert_all pairs [];
                })
                (attributes-Parses (shared f) fits))))))

goes_on : (f : FileEntry) (pre rest : List ℕ) → at_end (cursor pre (entry_bytes f ++ rest)) ≡ false
goes_on f pre rest = ground (
  arith,
  length-append pre (entry_bytes f ++ rest),
  length-append (entry_bytes f) rest,
  length-append (le_bytes 1 1) (file_fields_bytes (shared f)),
  length-le_bytes 1 1,
)

pub read_search_files-Parses :
    (username : Text) (files : List FileEntry)
    → All EntryFits files
    → Parses
        (read_up_to at_end (read_search_file username) (length files))
        (encode_all entry_bytes files)
        (map (file_of username) files)
unfolding read_up_to
read_search_files-Parses username [] h = record { at = λ pre rest. rw append-nil }
read_search_files-Parses username (f ∷ rest_files) (fits, others) =
    let first = read_search_file-Parses username f fits in
    let ih = read_search_files-Parses username rest_files others in
    record {
      at = λ pre rest. rw (
        append_assoc (entry_bytes f) (encode_all entry_bytes rest_files) rest,
        goes_on f pre (encode_all entry_bytes rest_files ++ rest),
        first.at pre (encode_all entry_bytes rest_files ++ rest),
        ih.at (pre ++ entry_bytes f) rest,
        append_assoc pre (entry_bytes f) (encode_all entry_bytes rest_files),
      );
    }
