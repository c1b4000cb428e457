-- ===== src/ElfImage/Load.antt =====
-- What `load_elf` guarantees of the segments that it returns.
use open_rv.Prelude.{
  ℕ, zero, suc, ◌+◌, ◌*◌, ◌≤◌, ◌<◌, ◌≡◌, sym, ap, ◌∙◌, subst, Option, none, some, List, [], ◌∷◌, ok,
  >>=-eq-ok, arith, length, All,
}
use open_rv.Buffer.{Buffer, read}
use open_rv.Buffer.Laws.{length-read}
use open_rv.ElfImage.{Segment, unpack, append_found, load_segment, load_segments, load_elf}

-- The data of a segment are bytes of the file, no more of them than its memory holds.
pub record IsLoaded (blob : Buffer) (segment : Segment) : Type 0 where
  pub file_offset : ℕ
  pub inside : file_offset + length segment.data_bytes ≤ blob.size
  pub read_from : segment.data_bytes ≡ read blob file_offset (length segment.data_bytes)
  pub fits : length segment.data_bytes ≤ segment.memory_size
  pub nonempty : 0 < segment.memory_size

abbrev AllFound : Buffer → Option Segment → Type 0
AllFound blob none = Unit
AllFound blob (some segment) = IsLoaded blob segment

load_segment-AllFound :
    (blob : Buffer) (offset index : ℕ) (found : Option Segment)
    → load_segment blob offset index ≡ ok found
    → AllFound blob found
unfolding load_segment
load_segment-AllFound blob offset index none h = tt
load_segment-AllFound blob offset index (some segment) h =
    let p_offset = unpack blob (offset + 8) 8 in
    let p_filesz = unpack blob (offset + 32) 8 in
    let bytes : segment.data_bytes ≡ read blob p_offset p_filesz = ground (arith, h) in
    let size : length segment.data_bytes ≡ p_filesz =
      ap length bytes ∙ length-read blob p_offset p_filesz in
    let bounds : (p_filesz ≤ segment.memory_size) × (p_offset + p_filesz ≤ blob.size) =
      ground (arith, h) in
    record {
      file_offset = p_offset;
      inside = let (fits, inside) = bounds in omega (arith, size);
      read_from = bytes ∙ ap (read blob p_offset) (sym size);
      fits = let (fits, inside) = bounds in omega (arith, size);
      nonempty = ground (arith, h);
    }

All-append_found :
    (blob : Buffer) (found : Option Segment) (segments : List Segment)
    → AllFound blob found
    → All (IsLoaded blob) segments
    → All (IsLoaded blob) (append_found found segments)
All-append_found blob none segments h hs = hs
All-append_found blob (some segment) segments h hs = (h, hs)

load_segments-IsLoaded :
    (blob : Buffer) (phoff phentsize left index : ℕ) {segments : List Segment}
    → load_segments blob phoff phentsize left index ≡ ok segments
    → All (IsLoaded blob) segments
unfolding load_segments
load_segments-IsLoaded blob phoff phentsize zero index {segments = []} h = tt
load_segments-IsLoaded blob phoff phentsize zero index {segments = s ∷ segments} h = cc
load_segments-IsLoaded blob phoff phentsize (suc left) index {segments = segments} h =
    let (found, first, more) =
      >>=-eq-ok (load_segment blob (phoff + index * phentsize) index) _ h in
    let (rest, loaded, done) =
      >>=-eq-ok (load_segments blob phoff phentsize left (index + 1)) _ more in
    let same : append_found found rest ≡ segments = cc in
    subst (All (IsLoaded blob)) same (
      All-append_found blob found rest (load_segment-AllFound blob _ index found first)
        (load_segments-IsLoaded blob phoff phentsize left (index + 1) loaded))

load_elf_step :
    (blob : Buffer) (entry : ℕ) (segments : List Segment)
    → load_elf blob ≡ ok (entry, segments)
    → (64 ≤ blob.size)
      × (0 < length segments)
      × (load_segments blob (unpack blob 32 8) (unpack blob 54 2) (unpack blob 56 2) 0
          ≡ ok segments)
      × (unpack blob 18 2 ≡ 243)
      × (entry ≡ unpack blob 24 8)
unfolding load_elf
load_elf_step blob entry segments h = ground (arith, h)

-- A file that `load_elf` accepts is for RISC-V, its entry point is that of the file header, and
-- it has at least one segment; the data of each lie inside the file and fit the memory of the
-- segment, which is not empty.
pub load_elf-IsLoaded :
    (blob : Buffer) (entry : ℕ) (segments : List Segment)
    → load_elf blob ≡ ok (entry, segments)
    → (unpack blob 18 2 ≡ 243)
      × (entry ≡ unpack blob 24 8)
      × (0 < length segments)
      × All (IsLoaded blob) segments
load_elf-IsLoaded blob entry segments h =
    let (_, some_loaded, loaded, machine, start) = load_elf_step blob entry segments h in
    (machine, start, some_loaded, load_segments-IsLoaded blob _ _ _ 0 loaded)
