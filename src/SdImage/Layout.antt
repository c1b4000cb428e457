-- ===== src/SdImage/Layout.antt =====
-- The entries that `make_entries` lays out, and the payloads in the image.
use open_rv.Prelude.{
  ℕ, zero, suc, ◌+◌, ◌-◌, ◌*◌, ◌^◌, ◌≤◌, ◌<◌, ◌≡◌, refl, sym, ◌∙◌, ap, ◌⊎◌, inl, inr, false, List,
  [], ◌∷◌, ok, arith, length, All,
}
use open_rv.Buffer.{Bytes, Buffer, read, splice}
use open_rv.Buffer.Laws.{read-splice_at, read_congr, slice-read}
use open_rv.SdImage.{
  sector_bytes, first_payload_lba, InputImage, Entry, sectors_for, any_nonzero, make_entries,
}
use open_rv.SdImage.Build.{place_payloads, image_size}
use open_rv.SdImage.Sound.{IsPlaced, IsIntact}
use open_rv.SdImage.Header.{IsTag, IsEntry}
use open_rv.SdImage.Decode.{Consecutive}

abbrev pub total_sectors : List Bytes → ℕ
total_sectors [] = 0
total_sectors (p ∷ payloads) = sectors_for (length p) + total_sectors payloads

-- An input that the format can hold.
abbrev pub IsInput : InputImage → Type 0
IsInput item = IsTag item.tag × (item.load_address < 2 ^ 64)

abbrev pub IsNonempty : Bytes → Type 0
IsNonempty p = 0 < length p

module _ (crc : Bytes → ℕ) where
  -- The entries of these payloads, one after another from `lba` on.
  abbrev pub LaidOut : ℕ → List Entry → List Bytes → Type 0
  LaidOut lba [] [] = Unit
  LaidOut lba (e ∷ entries) (p ∷ payloads) =
      (e.lba ≡ lba)
      × (e.sector_count ≡ sectors_for (length p))
      × (e.byte_length ≡ length p)
      × (e.crc32 ≡ crc p)
      × LaidOut (lba + sectors_for (length p)) entries payloads
  LaidOut lba [] (p ∷ payloads) = ⊥
  LaidOut lba (e ∷ entries) [] = ⊥

  -- Everything that the later steps need of the entries.
  pub record IsLayout (lba actual : ℕ) (inputs : List InputImage) (payloads : List Bytes)
      (entries : List Entry) : Type 0 where
    pub made : make_entries crc lba inputs payloads ≡ ok entries
    pub count : length entries ≡ length inputs
    pub laid_out : LaidOut lba entries payloads
    pub consecutive : Consecutive lba entries
    pub fit : All IsEntry entries
    pub placed : All (IsPlaced actual) entries

  pub make_entries-IsLayout :
      ((bs : Bytes) → crc bs < 2 ^ 32)
      → (lba actual : ℕ) (inputs : List InputImage) (payloads : List Bytes)
      → length inputs ≡ length payloads
      → All IsInput inputs
      → All IsNonempty payloads
      → first_payload_lba ≤ lba
      → (lba + total_sectors payloads) * sector_bytes ≤ actual
      → actual < 2 ^ 32
      → (entries : List Entry) × IsLayout lba actual inputs payloads entries
  unfolding make_entries
  make_entries-IsLayout bound lba actual [] [] same tags full lo hi small = (
    [],
    record { made = refl; count = refl; laid_out = tt; consecutive = tt; fit = tt; placed = tt },
  )
  make_entries-IsLayout bound lba actual [] (p ∷ payloads) same tags full lo hi small =
      absurd (omega arith)
  make_entries-IsLayout bound lba actual (item ∷ inputs) [] same tags full lo hi small =
      absurd (omega arith)
  make_entries-IsLayout bound lba actual (item ∷ inputs) (p ∷ payloads) same ((tag, address), tags)
        (full, more) lo hi small =
      let sectors = sectors_for (length p) in
      let (entries, layout) =
        make_entries-IsLayout bound (lba + sectors) actual inputs payloads (omega arith) tags more
          (omega arith) (omega arith) small in
      let enough : (length p ≤ sectors * 512) × (0 < sectors) = unfold sectors_for in omega arith in
      let e : Entry = record {
        tag = item.tag;
        lba = lba;
        sector_count = sectors;
        load_address = item.load_address;
        byte_length = length p;
        crc32 = crc p;
      } in
      (
        e ∷ entries,
        record {
          made = rw layout.made;
          count = omega (arith, layout.count);
          laid_out = (refl, refl, refl, refl, layout.laid_out);
          consecutive = (refl, enough.1, layout.consecutive);
          fit = (
            record {
              tag = tag;
              lba = omega arith;
              sector_count = omega arith;
              load_address = address;
              byte_length = omega (arith, enough);
              crc32 = bound p;
            },
            layout.fit,
          );
          placed = (
            record {
              tag_nonempty = tag.0;
              tag_short = tag.1;
              tag_ascii = tag.2;
              payload_nonempty = full;
              payload_fits = enough.0;
              after_header = lo;
              inside = omega arith;
            },
            layout.placed,
          );
        },
      )

any_nonzero-read :
    (b : Buffer) (off n : ℕ)
    → ((i : ℕ) → off ≤ i → i < off + n → b.byte i ≡ 0)
    → any_nonzero (read b off n) ≡ false
unfolding any_nonzero read
any_nonzero-read b off zero h = refl
any_nonzero-read b off (suc n) h = ground (
  arith,
  h off (omega arith) (omega arith),
  any_nonzero-read b (off + 1) n (λ i lo hi. h i (omega arith) (omega arith)),
)

pub byte-splice_ne :
    (b : Buffer) (o : ℕ) (bs : Bytes) (i : ℕ)
    → (i < o) ⊎ (o + length bs ≤ i)
    → (splice b o bs).byte i ≡ b.byte i
unfolding splice
byte-splice_ne b o bs i h = ground arith

size-splice :
    (b : Buffer) (o : ℕ) (bs : Bytes) → o + length bs ≤ b.size → (splice b o bs).size ≡ b.size
unfolding splice
size-splice b o bs h = omega arith

module _ (crc : Bytes → ℕ) where
  -- An entry's sectors read alike, so the entry is intact in both.
  IsIntact-congr :
      (b c : Buffer) (e : Entry)
      → b.size ≡ c.size
      → e.byte_length ≤ e.sector_count * sector_bytes
      → (e.lba + e.sector_count) * sector_bytes ≤ b.size
      → ((i : ℕ) → i < (e.lba + e.sector_count) * sector_bytes → c.byte i ≡ b.byte i)
      → IsIntact crc b e
      → IsIntact crc c e
  IsIntact-congr b c e same fits inside h intact =
      let start = e.lba * sector_bytes in
      let rest = e.sector_count * sector_bytes - e.byte_length in
      let at = λ (off n : ℕ) (le : off + n ≤ (e.lba + e.sector_count) * sector_bytes).
        slice-read c off n (omega arith)
        ∙ read_congr c b off n (λ i lo hi. h i (omega arith))
        ∙ sym (slice-read b off n (omega arith)) in
      record {
        checksum = ap crc (at start e.byte_length (omega arith)) ∙ intact.checksum;
        padding = ap any_nonzero (at (start + e.byte_length) rest (omega arith)) ∙ intact.padding;
      }

  -- The payload in its sectors, the rest of which are zero.
  splice-IsIntact :
      (b : Buffer) (e : Entry) (p : Bytes)
      → e.byte_length ≡ length p
      → e.crc32 ≡ crc p
      → length p ≤ e.sector_count * sector_bytes
      → (e.lba + e.sector_count) * sector_bytes ≤ b.size
      → ((i : ℕ) → e.lba * sector_bytes ≤ i → b.byte i ≡ 0)
      → IsIntact crc (splice b (e.lba * sector_bytes) p) e
  splice-IsIntact b e p size sum fits inside clean =
      let start = e.lba * sector_bytes in
      let c = splice b start p in
      let same = size-splice b start p (omega arith) in
      let rest = e.sector_count * sector_bytes - e.byte_length in
      record {
        checksum =
            ap crc (
              slice-read c start e.byte_length (omega (arith, same))
              ∙ read-splice_at b start p e.byte_length (sym size))
            ∙ sym sum;
        padding =
            ap any_nonzero (slice-read c (start + e.byte_length) rest (omega (arith, same)))
            ∙ any_nonzero-read c (start + e.byte_length) rest
                (λ i lo hi. byte-splice_ne b start p i (inr (omega arith)) ∙ clean i (omega arith));
      }

  -- The loop keeps the size and every byte below its first sector, and leaves each entry intact.
  pub place_payloads_lem :
      (b : Buffer) (lba : ℕ) (entries : List Entry) (payloads : List Bytes)
      → LaidOut crc lba entries payloads
      → (lba + total_sectors payloads) * sector_bytes ≤ b.size
      → ((i : ℕ) → lba * sector_bytes ≤ i → b.byte i ≡ 0)
      → (c : Buffer) × (place_payloads b entries payloads ≡ ok c)
        × (c.size ≡ b.size)
        × ((i : ℕ) → i < lba * sector_bytes → c.byte i ≡ b.byte i)
        × All (IsIntact crc c) entries
  unfolding place_payloads
  place_payloads_lem b lba [] [] laid fits clean = (b, refl, refl, λ i h. refl, tt)
  place_payloads_lem b lba [] (p ∷ payloads) laid fits clean = absurd laid
  place_payloads_lem b lba (e ∷ entries) [] laid fits clean = absurd laid
  place_payloads_lem b lba (e ∷ entries) (p ∷ payloads) (at, sectors, size, sum, laid) fits clean =
      let enough : length p ≤ sectors_for (length p) * 512 = unfold sectors_for in omega arith in
      let b' = splice b (e.lba * sector_bytes) p in
      let same = size-splice b (e.lba * sector_bytes) p (omega (arith, enough)) in
      let first =
        splice-IsIntact b e p size sum (omega (arith, enough)) (omega arith)
          (λ i lo. clean i (omega arith)) in
      let (c, placed, size', below, rest) =
        place_payloads_lem b' (lba + sectors_for (length p)) entries payloads laid
          (omega (arith, same))
          (λ i lo.
            byte-splice_ne b (e.lba * sector_bytes) p i (inr (omega (arith, enough)))
            ∙ clean i (omega arith)) in
      (
        c,
        placed,
        size' ∙ same,
        λ i h.
            below i (omega arith) ∙ byte-splice_ne b (e.lba * sector_bytes) p i (inl (omega arith)),
        (
          IsIntact-congr b' c e (sym size') (omega (arith, enough)) (omega (arith, same))
              (λ i h. below i (omega arith)) first,
          rest,
        ),
      )

  pub image_size-Consecutive :
      (end : ℕ) (entries : List Entry) (payloads : List Bytes)
      → LaidOut crc end entries payloads
      → image_size end entries ≡ (end + total_sectors payloads) * sector_bytes
  unfolding image_size
  image_size-Consecutive end [] [] h = omega arith
  image_size-Consecutive end [] (p ∷ payloads) h = absurd h
  image_size-Consecutive end (e ∷ entries) [] h = absurd h
  image_size-Consecutive end (e ∷ entries) (p ∷ payloads) (at, sectors, _, _, laid) =
      ap (λ k. image_size k entries) (omega arith)
      ∙ image_size-Consecutive (end + sectors_for (length p)) entries payloads laid
      ∙ omega arith
