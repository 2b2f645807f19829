-- ===== src/Listing/RoundTrip.antt =====
-- A listing that was written reads back: the writers and the readers of shared_file_list.rs agree.
use soulseek_rs_lib.Base.{
  ℕ, ◌%◌, ◌^◌, ◌<◌, ◌≡◌, refl, ap, ◌∙◌, List, [], ◌∷◌, ◌++◌, length, All, All-map, arith,
  length-append, append_assoc,
}
use soulseek_rs_lib.Base.Outcome.{ok}
use soulseek_rs_lib.Bytes.{le_bytes, length-le_bytes}
use soulseek_rs_lib.Message.{
  Message, read_int8, read_int32, read_int64, read_string, write_int8, write_int32, write_int64,
  write_string,
}
use soulseek_rs_lib.Message.Parses.{
  Parses, IsText, last-Parses, string_bytes, read_int8-Parses, read_int32-Parses, read_int64-Parses,
  read_string-Parses, bind-Parses,
}
use soulseek_rs_lib.Message.Utf8.{valid_utf8}
use soulseek_rs_lib.Message.Writes.{
  Writes, then-Writes, skip-Writes, write_int8-Writes, write_int32-Writes, write_int64-Writes,
  write_string-Writes,
}
use soulseek_rs_lib.Message.Loop.{
  read_up_to, at_end, lacks_pair, encode_all, ReadsBack, read_up_to-Parses,
}
use soulseek_rs_lib.Listing.{
  SharedFileEntry, SharedDirectory, write_attributes, write_file, write_files, write_each_directory,
  write_directories, read_attribute, read_file, read_directory, read_directories,
}

-- The numbers and texts of a listing fit the fields that carry them.
abbrev pub IsWord : ℕ → Type 0
IsWord v = v < 2 ^ 32

abbrev pub AttributeFits : ℕ × ℕ → Type 0
AttributeFits a = IsWord a.0 × IsWord a.1

pub record FileFits (f : SharedFileEntry) : Type 0 where
  pub name_fits : IsText f.name
  pub size_fits : f.size < 2 ^ 64
  pub count_fits : IsWord (length f.attributes)
  pub attributes_fit : All AttributeFits f.attributes

pub record DirectoryFits (d : SharedDirectory) : Type 0 where
  pub name_fits : IsText d.name
  pub count_fits : IsWord (length d.files)
  pub files_fit : All FileFits d.files

-- The bytes that stand for each part.
abbrev pub attribute_bytes : ℕ × ℕ → List ℕ
attribute_bytes a = le_bytes 4 a.0 ++ le_bytes 4 a.1

abbrev pub count_bytes : ℕ → List ℕ
count_bytes n = le_bytes 4 (n % 2 ^ 32)

abbrev pub file_fields_bytes : SharedFileEntry → List ℕ
file_fields_bytes f =
    string_bytes f.name
    ++ (le_bytes 8 f.size
        ++ (string_bytes []
            ++ (count_bytes (length f.attributes) ++ encode_all attribute_bytes f.attributes)))

abbrev pub file_bytes : SharedFileEntry → List ℕ
file_bytes f = le_bytes 1 1 ++ file_fields_bytes f

abbrev pub directory_rest_bytes : SharedDirectory → List ℕ
directory_rest_bytes d = count_bytes (length d.files) ++ encode_all file_bytes d.files

abbrev pub directory_bytes : SharedDirectory → List ℕ
directory_bytes d = string_bytes d.name ++ directory_rest_bytes d

abbrev pub listing_bytes : List SharedDirectory → List ℕ
listing_bytes dirs = count_bytes (length dirs) ++ encode_all directory_bytes dirs

write_attributes-Writes :
    (attrs : List (ℕ × ℕ)) → Writes (write_attributes attrs) (encode_all attribute_bytes attrs)
unfolding write_attributes
write_attributes-Writes [] = skip-Writes
write_attributes-Writes ((code, value) ∷ rest) =
    then-Writes _ (write_attributes rest)
      (then-Writes _ _ (write_int32-Writes code) (write_int32-Writes value))
      (write_attributes-Writes rest)

pub write_file-Writes : (f : SharedFileEntry) → Writes (write_file f) (file_bytes f)
unfolding write_file
write_file-Writes f = then-Writes (write_int8 1) _ (write_int8-Writes 1) (
    then-Writes (write_string f.name) _ (write_string-Writes f.name) (
      then-Writes (write_int64 f.size) _ (write_int64-Writes f.size) (
        then-Writes (write_string []) _ (write_string-Writes []) (
          then-Writes (write_int32 (length f.attributes % 2 ^ 32)) _
            (write_int32-Writes (length f.attributes % 2 ^ 32))
            (write_attributes-Writes f.attributes)))))

write_files-Writes :
    (files : List SharedFileEntry) → Writes (write_files files) (encode_all file_bytes files)
unfolding write_files
write_files-Writes [] = skip-Writes
write_files-Writes (f ∷ rest) =
    then-Writes (write_file f) (write_files rest) (write_file-Writes f) (write_files-Writes rest)

write_each_directory-Writes :
    (dirs : List SharedDirectory)
    → Writes (write_each_directory dirs) (encode_all directory_bytes dirs)
unfolding write_each_directory
write_each_directory-Writes [] = skip-Writes
write_each_directory-Writes (d ∷ rest) =
    then-Writes _ (write_each_directory rest)
      (then-Writes (write_string d.name) _ (write_string-Writes d.name) (
        then-Writes (write_int32 (length d.files % 2 ^ 32)) _
          (write_int32-Writes (length d.files % 2 ^ 32)) (write_files-Writes d.files)))
      (write_each_directory-Writes rest)

pub write_directories-Writes :
    (dirs : List SharedDirectory) → Writes (write_directories dirs) (listing_bytes dirs)
unfolding write_directories
write_directories-Writes dirs =
    then-Writes (write_int32 (length dirs % 2 ^ 32)) _ (write_int32-Writes (length dirs % 2 ^ 32))
      (write_each_directory-Writes dirs)

pub count-Parses : (n : ℕ) → IsWord n → Parses read_int32 (count_bytes n) n
count-Parses n h = let same : n % 2 ^ 32 ≡ n = omega arith in rw same (read_int32-Parses n h)

pub empty-IsText : IsText []
empty-IsText = record { short = omega arith; utf8 = unfold valid_utf8 in refl }

read_attribute-ReadsBack :
    (a : ℕ × ℕ) → AttributeFits a → ReadsBack lacks_pair read_attribute attribute_bytes a
unfolding read_attribute
read_attribute-ReadsBack a (code_fits, value_fits) = record {
  parses =
      bind-Parses read_int32 _ (read_int32-Parses a.0 code_fits)
        (last-Parses read_int32 (λ value. (a.0, value)) (read_int32-Parses a.1 value_fits));
  goes_on = λ pre rest. ground (
    arith,
    length-append pre (attribute_bytes a ++ rest),
    length-append (attribute_bytes a) rest,
    length-append (le_bytes 4 a.0) (le_bytes 4 a.1),
    length-le_bytes 4 a.0,
    length-le_bytes 4 a.1,
  );
}

module _ (f : SharedFileEntry) (fits : FileFits f) where
  pub attributes-Parses :
      Parses
        (read_up_to lacks_pair read_attribute (length f.attributes))
        (encode_all attribute_bytes f.attributes)
        f.attributes
  attributes-Parses =
      read_up_to-Parses lacks_pair read_attribute attribute_bytes f.attributes
        (All-map read_attribute-ReadsBack f.attributes fits.attributes_fit)

  read_file-Parses : Parses read_file (file_bytes f) f
  unfolding read_file
  read_file-Parses = bind-Parses read_int8 _ (read_int8-Parses 1 (omega arith)) (
      bind-Parses read_string _ (read_string-Parses f.name fits.name_fits) (
        bind-Parses read_int64 _ (read_int64-Parses f.size fits.size_fits) (
          bind-Parses read_string _ (read_string-Parses [] empty-IsText) (
            bind-Parses read_int32 _ (count-Parses (length f.attributes) fits.count_fits) (
              last-Parses _
                (λ attributes. record { name = f.name; size = f.size; attributes = attributes })
                attributes-Parses)))))

  read_file-ReadsBack : ReadsBack at_end read_file file_bytes f
  read_file-ReadsBack = record {
    parses = read_file-Parses;
    goes_on = λ pre rest. ground (
      arith,
      length-append pre (file_bytes f ++ rest),
      length-append (file_bytes f) rest,
      length-append (le_bytes 1 1) (file_fields_bytes f),
      length-le_bytes 1 1,
    );
  }

module _ (d : SharedDirectory) (fits : DirectoryFits d) where
  read_directory-Parses : Parses read_directory (directory_bytes d) d
  unfolding read_directory
  read_directory-Parses = bind-Parses read_string _ (read_string-Parses d.name fits.name_fits) (
      bind-Parses read_int32 _ (count-Parses (length d.files) fits.count_fits) (
        last-Parses _ (λ files. record { name = d.name; files = files })
          (read_up_to-Parses at_end read_file file_bytes d.files
            (All-map read_file-ReadsBack d.files fits.files_fit))))

  read_directory-ReadsBack : ReadsBack at_end read_directory directory_bytes d
  read_directory-ReadsBack = record {
    parses = read_directory-Parses;
    goes_on = λ pre rest. ground (
      arith,
      length-append pre (directory_bytes d ++ rest),
      length-append (directory_bytes d) rest,
      length-append (string_bytes d.name) (directory_rest_bytes d),
      length-append (le_bytes 4 (length d.name % 2 ^ 32)) d.name,
      length-le_bytes 4 (length d.name % 2 ^ 32),
    );
  }

pub record ListingFits (dirs : List SharedDirectory) : Type 0 where
  pub count_fits : IsWord (length dirs)
  pub directories_fit : All DirectoryFits dirs

pub read_directories-Parses :
    (dirs : List SharedDirectory)
    → ListingFits dirs
    → Parses read_directories (listing_bytes dirs) dirs
unfolding read_directories
read_directories-Parses dirs h =
    bind-Parses read_int32 _ (count-Parses (length dirs) h.count_fits) (
      read_up_to-Parses at_end read_directory directory_bytes dirs
        (All-map read_directory-ReadsBack dirs h.directories_fit))

-- A listing that `write_directories` wrote behind any payload, with anything after it, reads back
-- as it was, and the pointer ends behind it.
pub read-write_directories :
    (dirs : List SharedDirectory) (before after : List ℕ)
    → ListingFits dirs
    → let written = (write_directories dirs (record { bytes = before; pointer = 0 })).bytes in
      read_directories (record { bytes = written ++ after; pointer = length before })
      ≡ ok (dirs, record { bytes = written ++ after; pointer = length written })
read-write_directories dirs before after h =
    let start : Message = record { bytes = before; pointer = 0 } in
    rw ((write_directories-Writes dirs).at start) (
      ap (λ b. read_directories (record { bytes = b; pointer = length before }))
        (append_assoc before (listing_bytes dirs) after)
      ∙ (read_directories-Parses dirs h).at before after)
