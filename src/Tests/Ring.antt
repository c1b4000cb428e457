-- ===== src/Tests/Ring.antt =====
-- A ring of four elements of 16 bytes.
use open_rv.Prelude.{ℕ, ◌/◌, ◌≡◌, refl, arith, List, ok}
use open_rv.Multichase.{Line, make_order, emit}
use open_rv.Multichase.Permutation.{IsOrder, make_order_lem}
use open_rv.Multichase.Ring.{IsOneRing}
use open_rv.Multichase.Layout.{size, IsLaidOut, emit_chases}

make_order_lem_example :
    (order : List ℕ) × (end : ℕ) × (make_order 4 2 7 ≡ ok (order, end)) × IsOrder 4 order
make_order_lem_example = make_order_lem 4 2 7 (omega arith)

emit_chases_example :
    (lines : List Line) × (successors : List ℕ) × (offsets : List ℕ) × (emit 64 16 32 7 ≡ ok lines)
    × (size lines ≡ 64)
    × IsLaidOut 16 (64 / 16) lines successors offsets
    × IsOneRing (64 / 16) successors
emit_chases_example =
    emit_chases 64 16 32 7 (omega arith) refl (omega arith) refl (omega arith) refl
