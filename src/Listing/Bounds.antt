-- ===== src/Listing/Bounds.antt =====
-- Reading a listing from any payload: no panic, and no more entries than the payload has bytes.
use soulseek_rs_lib.Base.{
  ℕ, ◌+◌, ◌≤◌, ◌<◌, List, length, arith, get_elem?-some, ltb, Bool-cases, inl, inr, ap, ◌≡◌, refl,
}
use soulseek_rs_lib.Base.Text.{Text}
use soulseek_rs_lib.Base.Outcome.{Outcome, ok, panic, and_then}
use soulseek_rs_lib.Message.{Message, read_int8, read_int32, read_string, read_text}
use soulseek_rs_lib.Message.Index.{bytes_at-eq, slice-eq}
use soulseek_rs_lib.Message.Total.{
  IsTotal, bind-IsTotal, total_rules, Lands, read_int8-IsTotal, read_int32-IsTotal,
  read_string-IsTotal,
}
use soulseek_rs_lib.Message.Loop.{
  read_up_to, at_end, read_up_to-IsTotal, Consumes, Moves, Counts, bind-Consumes, read_up_to-Counts,
}
use soulseek_rs_lib.Listing.{
  SharedDirectory, read_attribute, read_file_fields, read_file, read_directory_files,
  read_directory, read_directories,
}

ruleset loop_rules = (total_rules, read_up_to-IsTotal)

read_attribute-IsTotal : IsTotal read_attribute
unfolding read_attribute
read_attribute-IsTotal = search total_rules

read_file_fields-IsTotal : IsTotal read_file_fields
unfolding read_file_fields
read_file_fields-IsTotal = search (loop_rules, read_attribute-IsTotal) depth 20

read_file-IsTotal : IsTotal read_file
unfolding read_file
read_file-IsTotal = bind-IsTotal read_int8 _ read_int8-IsTotal (λ code. read_file_fields-IsTotal)

read_directory_files-IsTotal : (name : Text) → IsTotal (read_directory_files name)
unfolding read_directory_files
read_directory_files-IsTotal name = search (loop_rules, read_file-IsTotal) depth 20

read_directory-IsTotal : IsTotal read_directory
unfolding read_directory
read_directory-IsTotal =
    bind-IsTotal read_string read_directory_files read_string-IsTotal read_directory_files-IsTotal

-- Whatever the payload, reading a listing does not panic.
pub read_directories-IsTotal : IsTotal read_directories
unfolding read_directories
read_directories-IsTotal = search (loop_rules, read_directory-IsTotal) depth 20

read_int8-Consumes : Consumes at_end read_int8
unfolding read_int8
read_int8-Consumes = record { at = λ m go inside. ground (arith, get_elem?-some m.bytes m.pointer) }

read_text-Moves :
    (m : Message) (start size : ℕ)
    → m.pointer < start
    → m.pointer < length m.bytes
    → Moves m (read_text start size m)
unfolding read_text
read_text-Moves m start size h k = ground (arith, slice-eq m.bytes start (start + size))

read_string-Consumes : Consumes at_end read_string
unfolding read_string
read_string-Consumes = record {
  at = λ m go inside. elim (Bool-cases (ltb (length m.bytes) (m.pointer + 4))) [
    | inl short ↦ rw short (ground arith)
    | inr long ↦
        rw (long, bytes_at-eq 4 m.bytes m.pointer (ground arith))
          (read_text-Moves m (m.pointer + 4) _ (omega arith) (ground arith))
  ];
}

-- Each round of the loop over directories passes one byte at least.
read_directory-Consumes : Consumes at_end read_directory
unfolding read_directory
read_directory-Consumes =
    bind-Consumes at_end read_string read_directory_files read_string-IsTotal read_string-Consumes
      read_directory_files-IsTotal

-- Each round of the loop over the files of a directory does so too.
read_file-Consumes : Consumes at_end read_file
unfolding read_file
read_file-Consumes =
    bind-Consumes at_end read_int8 (λ code. read_file_fields) read_int8-IsTotal read_int8-Consumes
      (λ code. read_file_fields-IsTotal)

read_directories-Counts : (m : Message) → m.pointer ≤ length m.bytes → Counts m (read_directories m)
unfolding read_directories
read_directories-Counts m inside = after (read_int32 m) (read_int32-IsTotal.at m)
  where
    after :
        (o : Outcome (ℕ × Message))
        → Lands m o
        → Counts m (and_then o λ (count, n). read_up_to at_end read_directory count n)
    after panic l = l
    after (ok (count, n)) l =
        let within = l.1 inside in
        start n within.0 (read_up_to at_end read_directory count n) (
          read_up_to-Counts at_end read_directory read_directory-IsTotal read_directory-Consumes
            count n (omega (arith, ap length l.0)))
      where
        start :
            (n : Message)
            → m.pointer ≤ n.pointer
            → (o : Outcome (List SharedDirectory × Message)) → Counts n o
            → Counts m o
        start n h panic c = c
        start n h (ok (dirs, k)) c = omega arith

abbrev Bounded : Message → Outcome (List SharedDirectory × Message) → Type 0
Bounded m o =
    (dirs : List SharedDirectory) × (n : Message) × (o ≡ ok (dirs, n))
    × (n.bytes ≡ m.bytes)
    × (m.pointer + length dirs ≤ n.pointer)
    × (n.pointer ≤ length m.bytes)

-- Whatever number of directories and files the payload announces: from a pointer within the payload
-- the reader returns a listing, without a panic, passes one byte at least for each directory it
-- returns, and stops within the payload. So the directories are no more than the bytes it had left.
pub read_directories-bounded :
    (m : Message)
    → m.pointer ≤ length m.bytes
    → (dirs : List SharedDirectory) × (n : Message) × (read_directories m ≡ ok (dirs, n))
      × (n.bytes ≡ m.bytes)
      × (m.pointer + length dirs ≤ n.pointer)
      × (n.pointer ≤ length m.bytes)
read_directories-bounded m inside =
    both (read_directories m) (read_directories-IsTotal.at m) (read_directories-Counts m inside)
  where
    both : (o : Outcome (List SharedDirectory × Message)) → Lands m o → Counts m o → Bounded m o
    both panic l c = absurd l
    both (ok (dirs, n)) l c = (dirs, n, refl, l.0, c, (l.1 inside).1)

-- So are the files read for one directory.
pub read_files-Counts :
    (count : ℕ) (m : Message)
    → m.pointer ≤ length m.bytes
    → Counts m (read_up_to at_end read_file count m)
read_files-Counts = read_up_to-Counts at_end read_file read_file-IsTotal read_file-Consumes
