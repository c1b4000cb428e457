-- ===== src/SdImage/Decode.antt =====
-- Decoding a header that holds the entries of a laid-out image.
use open_rv.Prelude.{
  ℕ, zero, suc, ◌+◌, ◌-◌, ◌*◌, ◌<◌, ◌≡◌, refl, ◌∙◌, ap, List, [], ◌∷◌, ◌++◌, map, ok, arith, length,
  replicate, All,
}
use open_rv.Buffer.{Bytes, Buffer, read}
use open_rv.SdImage.{entry_offset, entry_bytes, Entry, rstrip, pad8}
use open_rv.SdImage.Verify.{
  decode_entry, decode_entries, Range, range_of, range_le, insert_range, sort_ranges, check_overlap,
}
use open_rv.SdImage.Sound.{IsPlaced}
use open_rv.SdImage.Header.{Holds, IsEntry, AllHold}

rstrip-replicate : (n : ℕ) → rstrip (replicate n 0) ≡ []
unfolding rstrip
rstrip-replicate zero = refl
rstrip-replicate (suc n) = rw (rstrip-replicate n)

rstrip-append : (tag : Bytes) (n : ℕ) → rstrip (tag ++ replicate n 0) ≡ rstrip tag
unfolding rstrip
rstrip-append [] n = rstrip-replicate n
rstrip-append (c ∷ tag) n = rw (rstrip-append tag n)

rstrip-pad8 : (tag : Bytes) → rstrip tag ≡ tag → rstrip (pad8 tag) ≡ tag
unfolding pad8
rstrip-pad8 tag h = rstrip-append tag (8 - length tag) ∙ h

decode_entry-Holds :
    (b : Buffer) (actual index : ℕ) (e : Entry)
    → Holds b (entry_offset + index * entry_bytes) e
    → IsEntry e
    → IsPlaced actual e
    → decode_entry b actual index ≡ ok e
unfolding decode_entry
decode_entry-Holds b actual index e holds good placed =
    let tag : rstrip (read b (entry_offset + index * entry_bytes) 8) ≡ e.tag =
      ap rstrip holds.tag ∙ rstrip-pad8 e.tag good.tag.3 in
    rw (tag, holds.lba, holds.sector_count, holds.load_address, holds.byte_length, holds.crc32)
      (ground arith)

pub decode_entries-AllHold :
    (b : Buffer) (actual index : ℕ) (entries : List Entry)
    → AllHold b index entries
    → All IsEntry entries
    → All (IsPlaced actual) entries
    → decode_entries b actual (length entries) index ≡ ok entries
unfolding decode_entries
decode_entries-AllHold b actual index [] holds good placed = refl
decode_entries-AllHold b actual index (e ∷ entries) (held, holds) (fit, good) (here, placed) = rw (
  decode_entry-Holds b actual index e held fit here,
  decode_entries-AllHold b actual (index + 1) entries holds good placed,
)

-- Entries one after another, each with a sector or more, from `lba` on.
abbrev pub Consecutive : ℕ → List Entry → Type 0
Consecutive lba [] = Unit
Consecutive lba (e ∷ entries) =
    (e.lba ≡ lba) × (0 < e.sector_count) × Consecutive (lba + e.sector_count) entries

insert_first :
    (r s : Range) (rs : List Range) → r.start < s.start → insert_range r (s ∷ rs) ≡ r ∷ s ∷ rs
unfolding insert_range range_le
insert_first r s rs h = ground arith

-- They are sorted, and pass the overlap test.
pub check_overlap-sort_ranges :
    (lba : ℕ) (entries : List Entry)
    → Consecutive lba entries
    → (sort_ranges entries ≡ map range_of entries) × (check_overlap (map range_of entries) ≡ ok tt)
unfolding sort_ranges check_overlap insert_range
check_overlap-sort_ranges lba [] h = (refl, refl)
check_overlap-sort_ranges lba (e ∷ []) h = (refl, refl)
check_overlap-sort_ranges lba (e ∷ f ∷ entries) (here, some_sector, next) =
    let (sorted, apart) = check_overlap-sort_ranges (lba + e.sector_count) (f ∷ entries) next in
    (
      rw sorted (insert_first (range_of e) (range_of f) (map range_of entries) (omega arith)),
      ground (arith, apart),
    )
