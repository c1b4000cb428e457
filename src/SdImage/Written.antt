-- ===== src/SdImage/Written.antt =====
-- What the writer of tools/make-fpga-sd-image.py puts in the header.
use open_rv.Prelude.{ℕ, ◌+◌, ◌^◌, ◌≤◌, ◌<◌, ◌≡◌, refl, ◌∙◌, ap, inl, arith}
use open_rv.Buffer.{Buffer, zeros, read, splice, from_le}
use open_rv.Buffer.Laws.{read-splice_at}
use open_rv.SdImage.{magic, version, header_bytes, entry_bytes, field, store, write_header}
use open_rv.SdImage.Header.{field-store_self, read-store_ne, field-store_ne, size-store}

-- The fixed part of a header.
pub record IsHeader (b : Buffer) (n total : ℕ) : Type 0 where
  pub mark : read b 0 8 ≡ magic
  pub version : field b 8 4 ≡ version
  pub header_bytes : field b 12 4 ≡ header_bytes
  pub entry_bytes : field b 16 4 ≡ entry_bytes
  pub count : field b 20 4 ≡ n
  pub image_bytes : field b 24 8 ≡ total

pub IsHeader-congr :
    (b c : Buffer) (count image_bytes : ℕ)
    → ((off n : ℕ) → off + n ≤ 64 → read c off n ≡ read b off n)
    → IsHeader b count image_bytes
    → IsHeader c count image_bytes
unfolding field
IsHeader-congr b c count image_bytes h header = record {
  mark = h 0 8 (omega arith) ∙ header.mark;
  version = ap from_le (h 8 4 (omega arith)) ∙ header.version;
  header_bytes = ap from_le (h 12 4 (omega arith)) ∙ header.header_bytes;
  entry_bytes = ap from_le (h 16 4 (omega arith)) ∙ header.entry_bytes;
  count = ap from_le (h 20 4 (omega arith)) ∙ header.count;
  image_bytes = ap from_le (h 24 8 (omega arith)) ∙ header.image_bytes;
}

pub write_header-IsHeader :
    (count image_bytes : ℕ)
    → count < 2 ^ 32
    → image_bytes < 2 ^ 64
    → IsHeader (write_header count image_bytes) count image_bytes
      × ((write_header count image_bytes).size ≡ 512)
unfolding write_header
write_header-IsHeader n size hn hs =
    let b₀ = splice (zeros 512) 0 magic in
    let b₁ = store b₀ 8 4 1 in
    let b₂ = store b₁ 12 4 512 in
    let b₃ = store b₂ 16 4 32 in
    let b₄ = store b₃ 20 4 n in
    let e₀ : b₀.size ≡ 512 = unfold splice zeros in omega arith in
    let e₁ = size-store b₀ 8 4 1 (omega (arith, e₀)) in
    let e₂ = size-store b₁ 12 4 512 (omega (arith, e₀, e₁)) in
    let e₃ = size-store b₂ 16 4 32 (omega (arith, e₀, e₁, e₂)) in
    let e₄ = size-store b₃ 20 4 n (omega (arith, e₀, e₁, e₂, e₃)) in
    let e₅ = size-store b₄ 24 8 size (omega (arith, e₀, e₁, e₂, e₃, e₄)) in
    let s₅ = λ (k w : ℕ) (h : k + w ≤ 24). field-store_ne b₄ 24 8 size k w (inl h) in
    let s₄ = λ (k w : ℕ) (h : k + w ≤ 20). field-store_ne b₃ 20 4 n k w (inl h) in
    let s₃ = λ (k w : ℕ) (h : k + w ≤ 16). field-store_ne b₂ 16 4 32 k w (inl h) in
    let s₂ = λ (k w : ℕ) (h : k + w ≤ 12). field-store_ne b₁ 12 4 512 k w (inl h) in
    (
      record {
        mark =
            read-store_ne b₄ 24 8 size 0 8 (inl (omega arith))
            ∙ read-store_ne b₃ 20 4 n 0 8 (inl (omega arith))
            ∙ read-store_ne b₂ 16 4 32 0 8 (inl (omega arith))
            ∙ read-store_ne b₁ 12 4 512 0 8 (inl (omega arith))
            ∙ read-store_ne b₀ 8 4 1 0 8 (inl (omega arith))
            ∙ read-splice_at (zeros 512) 0 magic 8 refl;
        version =
            s₅ 8 4 (omega arith)
            ∙ s₄ 8 4 (omega arith)
            ∙ s₃ 8 4 (omega arith)
            ∙ s₂ 8 4 (omega arith)
            ∙ field-store_self b₀ 8 4 1 (omega arith);
        header_bytes =
            s₅ 12 4 (omega arith)
            ∙ s₄ 12 4 (omega arith)
            ∙ s₃ 12 4 (omega arith)
            ∙ field-store_self b₁ 12 4 512 (omega arith);
        entry_bytes =
            s₅ 16 4 (omega arith)
            ∙ s₄ 16 4 (omega arith)
            ∙ field-store_self b₂ 16 4 32 (omega arith);
        count = s₅ 20 4 (omega arith) ∙ field-store_self b₃ 20 4 n (omega arith);
        image_bytes = field-store_self b₄ 24 8 size (omega arith);
      },
      e₅ ∙ e₄ ∙ e₃ ∙ e₂ ∙ e₁ ∙ e₀,
    )
