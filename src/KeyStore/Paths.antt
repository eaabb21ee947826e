-- ===== src/KeyStore/Paths.antt =====
-- The path of the temporary file.
use Prim.Native.String.{String, [], ◌∷◌, ◌++◌, count}
use Prim.Native.String.count as count_laws
use Prim.Native.String.append
use cat_tag.Common.{suc, ◌+◌, ◌≡◌, ap, ◌∙◌, false, same, same_iff, Bool-cases, inl, inr, arith}
use cat_tag.KeyStore.{temp_file}

count-append : (s t : String) → count (s ++ t) ≡ count s + count t
count-append [] t = ap count (append.nil t) ∙ (omega arith)
count-append (c ∷ s) t =
    let a : count ((c ∷ s) ++ t) ≡ count (c ∷ (s ++ t)) = ap count (append.cons c s t) in
    let b : count (c ∷ (s ++ t)) ≡ suc (count (s ++ t)) = count_laws.cons c (s ++ t) in
    let d : count (c ∷ s) ≡ suc (count s) = count_laws.cons c s in
    let h = count-append s t in omega arith

-- The temporary file is another file.
pub temp_file-other : (path : String) → same (temp_file path) path ≡ false
temp_file-other path = elim (Bool-cases (same (temp_file path) path)) [
  | inr e ↦ e
  | inl e ↦
      let h = count-append path ".tmp" in
      let equal : count (path ++ ".tmp") ≡ count path =
        ap count ((same_iff (temp_file path) path).0 e) in
      absurd (omega arith)
]
