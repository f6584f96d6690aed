-- ===== src/Tests/Sink.antt =====
-- Tests of the file sink, over small systems.
use mathlib.Core.HLevel.{Discrete}
use mathlib.Core.List.{List-discrete}
use mpmc_logger.Prelude.{
  ℕ, ◌+◌, ◌%◌, ◌≡◌, ◌≢◌, refl, sym, ap, ◌∙◌, true, none, some, Option, List, arith, length,
  replicate, codes, if◌then◌else◌, ◌==◌, ℕ_discrete,
}
use mpmc_logger.Format.{fast_u32_to_str, digit_loop}
use mpmc_logger.Format.Digits.{read_digits, read-fast_u32_to_str}
use mpmc_logger.Sink.{Os, MMapSink, write, rotate_files, rotated_name}
use mpmc_logger.Sink.Bounds.{Wrote, write-Wrote}
use mpmc_logger.Sink.Unaligned.{Dead, write-Dead}
use mpmc_logger.Sink.Rotate.{FileLaws, rotate_files_shift}

-- A system on which every call succeeds, and which counts its mappings.
abbrev pub willing : Os ℕ
willing = record {
  open_path = λ path w. (some 3, w);
  fstat = λ fd w. (some 0, w);
  close = λ fd w. w;
  ftruncate = λ fd len w. (true, w);
  mmap = λ len fd offset w. (some 65536, w + 1);
  madvise = λ addr len w. w;
  munmap = λ addr len w. w;
  msync = λ addr len sync w. w;
  store = λ addr bytes w. w;
  unlink = λ path w. w;
  rename = λ old new w. w;
  mkdir = λ path w. w;
}

abbrev pub full_sink : MMapSink
full_sink = record {
  base_path = codes "app.log";
  region_size = 4096;
  max_file_size = 4096;
  max_rotated = 3;
  fd = some 3;
  mmap_ptr = some 65536;
  mmap_offset = 4096;
  file_offset = 4096;
  total_bytes_written = 4096;
  rotation_count = 0;
}

write-Wrote_example :
    Wrote willing fast_u32_to_str full_sink
      (replicate 128 7)
      (write willing fast_u32_to_str (replicate 128 7) full_sink 0)
write-Wrote_example =
    write-Wrote willing fast_u32_to_str (replicate 128 7) full_sink 0
      (record { offset_le = omega arith; region_lt = omega arith; total_lt = omega arith })
      (omega arith)

-- A system that maps at whole pages only.
abbrev strict : Os ℕ
strict = record willing {
  mmap = λ len fd offset w. (if offset % 4096 == 0 then some 65536 else none, w);
}

strict-refuses :
    (len fd offset : ℕ) (w : ℕ) → offset % 4096 ≢ 0 → (strict.mmap len fd offset w).0 ≡ none
strict-refuses len fd offset w odd = ground arith

-- Seventy bytes, then sixty, in a region of 128.
abbrev text_sink : MMapSink
text_sink = record full_sink {
  region_size = 128;
  max_file_size = 65536;
  mmap_offset = 70;
  file_offset = 70;
  total_bytes_written = 70;
}

write-Dead_example :
    Dead strict fast_u32_to_str 4096 strict-refuses
      (write strict fast_u32_to_str (replicate 60 7) text_sink 0)
write-Dead_example =
    write-Dead strict fast_u32_to_str 4096 strict-refuses (replicate 60 7) text_sink 0 65536 refl
      (omega arith) (omega arith) (omega arith) (omega arith) (omega arith) (omega arith)

-- Files by name, each with a number for its content.
abbrev Files : Type 0
Files = List ℕ → Option ℕ

pub names_discrete : Discrete (List ℕ)
names_discrete = List-discrete ℕ_discrete

abbrev pub pick {ℓ κ} : {P : Type ℓ} {A : Type κ} → Dec P → A → A → A
pick (yes p) x y = x
pick (no np) x y = y

pick-yes {ℓ κ} : {P : Type ℓ} {A : Type κ} (d : Dec P) (x y : A) → P → pick d x y ≡ x
pick-yes (yes p) x y q = refl
pick-yes (no np) x y q = absurd (np q)

pick-no {ℓ κ} : {P : Type ℓ} {A : Type κ} (d : Dec P) (x y : A) → ¬ P → pick d x y ≡ y
pick-no (yes p) x y nq = absurd (nq p)
pick-no (no np) x y nq = refl

abbrev pub remove : List ℕ → Files → Files
remove p w q = pick (names_discrete q p) none (w q)

abbrev pub moved : (old new : List ℕ) → Files → Files
moved old new w q = pick (names_discrete q old) none (pick (names_discrete q new) (w old) (w q))

abbrev filing : Os Files
filing = record {
  open_path = λ path w. (some 3, w);
  fstat = λ fd w. (some 0, w);
  close = λ fd w. w;
  ftruncate = λ fd len w. (true, w);
  mmap = λ len fd offset w. (some 65536, w);
  madvise = λ addr len w. w;
  munmap = λ addr len w. w;
  msync = λ addr len sync w. w;
  store = λ addr bytes w. w;
  unlink = λ path w. remove path w;
  rename = λ old new w. moved old new w;
  mkdir = λ path w. w;
}

pub filing-FileLaws : FileLaws filing (λ w. w)
filing-FileLaws = record {
  unlinked = λ p w. pick-yes (names_discrete p p) _ _ refl;
  unlink_others = λ p q w ne. pick-no (names_discrete q p) _ _ ne;
  renamed = λ a b w ne free.
      pick-no (names_discrete b a) _ _ (λ e. ne (sym e)) ∙ pick-yes (names_discrete b b) _ _ refl;
  rename_source = λ a b w ne. pick-yes (names_discrete a a) _ _ refl;
  rename_others =
      λ a b q w na nb. pick-no (names_discrete q a) _ _ na ∙ pick-no (names_discrete q b) _ _ nb;
}

pub digits_distinct : (i j : ℕ) → fast_u32_to_str i ≡ fast_u32_to_str j → i ≡ j
digits_distinct i j e = sym (read-fast_u32_to_str i) ∙ ap (read_digits 0) e ∙ read-fast_u32_to_str j

-- The current file, and the files `.1` and `.2`.
abbrev three_files : Files
three_files =
    moved (codes "x") (codes "app.log.2")
      (moved (codes "y") (codes "app.log") (λ name. some (length name)))

pub digits_one : fast_u32_to_str 1 ≡ codes "1"
unfolding fast_u32_to_str digit_loop
digits_one = refl

rotate_files_shift_example :
    (rotate_files filing fast_u32_to_str full_sink three_files).1
      (rotated_name filing fast_u32_to_str full_sink 2)
    ≡ three_files (rotated_name filing fast_u32_to_str full_sink 1)
rotate_files_shift_example =
    rotate_files_shift filing-FileLaws digits_distinct full_sink digits_one (omega arith)
      (omega arith) three_files 1 (omega arith) (omega arith)
