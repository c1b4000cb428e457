-- ===== src/SdImage/Header.antt =====
-- Reading the header fields back.
use open_rv.Prelude.{
  ℕ, ◌+◌, ◌-◌, ◌*◌, ◌^◌, ◌≤◌, ◌<◌, ◌≡◌, refl, ◌∙◌, ap, ◌⊎◌, inl, true, List, [], ◌∷◌, ok, arith,
  length, replicate, All, length-append, length-replicate,
}
use open_rv.Buffer.{Bytes, Buffer, read, splice, from_le}
use open_rv.Buffer.Laws.{
  read-splice_at, read-splice_disjoint, field-splice_self, read-splice-to_le_disjoint, length-to_le,
}
use open_rv.SdImage.{
  entry_offset, entry_bytes, header_bytes, Entry, is_ascii, rstrip, pad8, field, store, entry_fits,
  write_entry, encode_entries,
}

-- What the header holds of an entry.
pub record Holds (b : Buffer) (offset : ℕ) (e : Entry) : Type 0 where
  pub tag : read b offset 8 ≡ pad8 e.tag
  pub lba : field b (offset + 8) 4 ≡ e.lba
  pub sector_count : field b (offset + 12) 4 ≡ e.sector_count
  pub load_address : field b (offset + 16) 8 ≡ e.load_address
  pub byte_length : field b (offset + 24) 4 ≡ e.byte_length
  pub crc32 : field b (offset + 28) 4 ≡ e.crc32

pub field-store_self : (b : Buffer) (o w v : ℕ) → v < 256 ^ w → field (store b o w v) o w ≡ v
unfolding field store
field-store_self b o w v h = field-splice_self b o w v h

pub read-store_ne :
    (b : Buffer) (o w v off n : ℕ)
    → (off + n ≤ o) ⊎ (o + w ≤ off)
    → read (store b o w v) off n ≡ read b off n
unfolding store
read-store_ne b o w v off n h = read-splice-to_le_disjoint b o w v off n h

pub field-store_ne :
    (b : Buffer) (o w v off n : ℕ)
    → (off + n ≤ o) ⊎ (o + w ≤ off)
    → field (store b o w v) off n ≡ field b off n
unfolding field
field-store_ne b o w v off n h = ap from_le (read-store_ne b o w v off n h)

length-pad8 : (tag : Bytes) → length tag ≤ 8 → length (pad8 tag) ≡ 8
unfolding pad8
length-pad8 tag h = omega (
  arith,
  length-append tag (replicate (8 - length tag) 0),
  length-replicate {A = ℕ} (8 - length tag) 0,
)

-- The fields of an entry that was written.
write_entry-Holds :
    (b : Buffer) (o : ℕ) (e : Entry)
    → length e.tag ≤ 8
    → entry_fits e o ≡ true
    → Holds (write_entry b o e) o e
unfolding entry_fits write_entry
write_entry-Holds b o e short fits =
    let b₁ = splice b o (pad8 e.tag) in
    let b₂ = store b₁ (o + 8) 4 e.lba in
    let b₃ = store b₂ (o + 12) 4 e.sector_count in
    let b₄ = store b₃ (o + 16) 8 e.load_address in
    let b₅ = store b₄ (o + 24) 4 e.byte_length in
    let b₆ = store b₅ (o + 28) 4 e.crc32 in
    let s₃ =
      λ (k w : ℕ) (h : k + w ≤ o + 12). field-store_ne b₂ (o + 12) 4 e.sector_count k w (inl h) in
    let s₄ =
      λ (k w : ℕ) (h : k + w ≤ o + 16). field-store_ne b₃ (o + 16) 8 e.load_address k w (inl h) in
    let s₅ =
      λ (k w : ℕ) (h : k + w ≤ o + 24). field-store_ne b₄ (o + 24) 4 e.byte_length k w (inl h) in
    let s₆ = λ (k w : ℕ) (h : k + w ≤ o + 28). field-store_ne b₅ (o + 28) 4 e.crc32 k w (inl h) in
    record {
      tag =
          read-store_ne b₅ (o + 28) 4 e.crc32 o 8 (inl (omega arith))
          ∙ read-store_ne b₄ (o + 24) 4 e.byte_length o 8 (inl (omega arith))
          ∙ read-store_ne b₃ (o + 16) 8 e.load_address o 8 (inl (omega arith))
          ∙ read-store_ne b₂ (o + 12) 4 e.sector_count o 8 (inl (omega arith))
          ∙ read-store_ne b₁ (o + 8) 4 e.lba o 8 (inl (omega arith))
          ∙ read-splice_at b o (pad8 e.tag) 8 (length-pad8 e.tag short);
      lba =
          s₆ (o + 8) 4 (omega arith)
          ∙ s₅ (o + 8) 4 (omega arith)
          ∙ s₄ (o + 8) 4 (omega arith)
          ∙ s₃ (o + 8) 4 (omega arith)
          ∙ field-store_self b₁ (o + 8) 4 e.lba (ground arith);
      sector_count =
          s₆ (o + 12) 4 (omega arith)
          ∙ s₅ (o + 12) 4 (omega arith)
          ∙ s₄ (o + 12) 4 (omega arith)
          ∙ field-store_self b₂ (o + 12) 4 e.sector_count (ground arith);
      load_address =
          s₆ (o + 16) 8 (omega arith)
          ∙ s₅ (o + 16) 8 (omega arith)
          ∙ field-store_self b₃ (o + 16) 8 e.load_address (ground arith);
      byte_length =
          s₆ (o + 24) 4 (omega arith) ∙ field-store_self b₄ (o + 24) 4 e.byte_length (ground arith);
      crc32 = field-store_self b₅ (o + 28) 4 e.crc32 (ground arith);
    }

-- A buffer that reads alike in an entry's range holds the same entry.
pub Holds-congr :
    (b c : Buffer) (o : ℕ) (e : Entry)
    → ((off n : ℕ) → o ≤ off → off + n ≤ o + entry_bytes → read c off n ≡ read b off n)
    → Holds b o e
    → Holds c o e
unfolding field
Holds-congr b c o e h holds = record {
  tag = h o 8 (omega arith) (omega arith) ∙ holds.tag;
  lba = ap from_le (h (o + 8) 4 (omega arith) (omega arith)) ∙ holds.lba;
  sector_count = ap from_le (h (o + 12) 4 (omega arith) (omega arith)) ∙ holds.sector_count;
  load_address = ap from_le (h (o + 16) 8 (omega arith) (omega arith)) ∙ holds.load_address;
  byte_length = ap from_le (h (o + 24) 4 (omega arith) (omega arith)) ∙ holds.byte_length;
  crc32 = ap from_le (h (o + 28) 4 (omega arith) (omega arith)) ∙ holds.crc32;
}

-- `write_entry` changes the 32 bytes of its entry alone.
read-write_entry :
    (b : Buffer) (o : ℕ) (e : Entry) (off n : ℕ)
    → length e.tag ≤ 8
    → (off + n ≤ o) ⊎ (o + entry_bytes ≤ off)
    → read (write_entry b o e) off n ≡ read b off n
unfolding write_entry
read-write_entry b o e off n short h =
    read-store_ne _ (o + 28) 4 e.crc32 off n (omega arith)
    ∙ read-store_ne _ (o + 24) 4 e.byte_length off n (omega arith)
    ∙ read-store_ne _ (o + 16) 8 e.load_address off n (omega arith)
    ∙ read-store_ne _ (o + 12) 4 e.sector_count off n (omega arith)
    ∙ read-store_ne _ (o + 8) 4 e.lba off n (omega arith)
    ∙ read-splice_disjoint b o (pad8 e.tag) off n (omega (arith, length-pad8 e.tag short))

pub size-store : (b : Buffer) (o w v : ℕ) → o + w ≤ b.size → (store b o w v).size ≡ b.size
unfolding store splice
size-store b o w v h = omega (arith, length-to_le w v)

size-write_entry :
    (b : Buffer) (o : ℕ) (e : Entry)
    → length e.tag ≤ 8
    → o + entry_bytes ≤ b.size
    → (write_entry b o e).size ≡ b.size
unfolding write_entry
size-write_entry b o e short h =
    let b₁ = splice b o (pad8 e.tag) in
    let e₁ : b₁.size ≡ b.size = unfold splice in omega (arith, length-pad8 e.tag short) in
    let b₂ = store b₁ (o + 8) 4 e.lba in
    let e₂ = size-store b₁ (o + 8) 4 e.lba (omega (arith, e₁)) in
    let b₃ = store b₂ (o + 12) 4 e.sector_count in
    let e₃ = size-store b₂ (o + 12) 4 e.sector_count (omega (arith, e₁, e₂)) in
    let b₄ = store b₃ (o + 16) 8 e.load_address in
    let e₄ = size-store b₃ (o + 16) 8 e.load_address (omega (arith, e₁, e₂, e₃)) in
    let b₅ = store b₄ (o + 24) 4 e.byte_length in
    let e₅ = size-store b₄ (o + 24) 4 e.byte_length (omega (arith, e₁, e₂, e₃, e₄)) in
    size-store b₅ (o + 28) 4 e.crc32 (omega (arith, e₁, e₂, e₃, e₄, e₅)) ∙ e₅ ∙ e₄ ∙ e₃ ∙ e₂ ∙ e₁

-- A tag that the format can hold: ASCII, 1 to 8 characters, the last of them not NUL.
abbrev pub IsTag : Bytes → Type 0
IsTag tag = (0 < length tag) × (length tag ≤ 8) × (is_ascii tag ≡ true) × (rstrip tag ≡ tag)

-- An entry that the header can hold.
pub record IsEntry (e : Entry) : Type 0 where
  pub tag : IsTag e.tag
  pub lba : e.lba < 2 ^ 32
  pub sector_count : e.sector_count < 2 ^ 32
  pub load_address : e.load_address < 2 ^ 64
  pub byte_length : e.byte_length < 2 ^ 32
  pub crc32 : e.crc32 < 2 ^ 32

abbrev pub AllHold : Buffer → ℕ → List Entry → Type 0
AllHold b index [] = Unit
AllHold b index (e ∷ entries) =
    Holds b (entry_offset + index * entry_bytes) e × AllHold b (index + 1) entries

pub AllHold-congr :
    (b c : Buffer) (index : ℕ) (entries : List Entry)
    → index + length entries ≤ 13
    → ((off n : ℕ) → entry_offset ≤ off → off + n ≤ 480 → read c off n ≡ read b off n)
    → AllHold b index entries
    → AllHold c index entries
AllHold-congr b c index [] room h holds = tt
AllHold-congr b c index (e ∷ entries) room h (first, rest) = (
  Holds-congr b c _ e (λ off n lo hi. h off n (omega arith) (omega arith)) first,
  AllHold-congr b c (index + 1) entries (omega arith) h rest,
)

-- The loop writes every entry, changes nothing below its first, and keeps the size.
pub encode_entries_lem :
    (b : Buffer) (index : ℕ) (entries : List Entry)
    → b.size ≡ header_bytes
    → index + length entries ≤ 13
    → All IsEntry entries
    → (c : Buffer) × (encode_entries b index entries ≡ ok c)
      × AllHold c index entries
      × (c.size ≡ header_bytes)
      × ((off n : ℕ) → off + n ≤ entry_offset + index * entry_bytes → read c off n ≡ read b off n)
unfolding encode_entries
encode_entries_lem b index [] size room h = (b, refl, tt, size, λ off n le. refl)
encode_entries_lem b index (e ∷ entries) size room (good, h) =
    let o = entry_offset + index * entry_bytes in
    let fits : entry_fits e o ≡ true = unfold entry_fits in ground arith in
    let (c, encoded, holds, size', below) =
      encode_entries_lem (write_entry b o e) (index + 1) entries
        (size-write_entry b o e good.tag.1 (omega arith) ∙ size) (omega arith) h in
    (
      c,
      ground (arith, encoded, fits),
      (
        Holds-congr (write_entry b o e) c o e (λ off n lo hi. below off n (omega arith))
            (write_entry-Holds b o e good.tag.1 fits),
        holds,
      ),
      size',
      λ off n le. below off n (omega arith) ∙ read-write_entry b o e off n good.tag.1 (inl le),
    )
