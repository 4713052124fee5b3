-- ===== src/Instr/Decode/Spec.antt =====
-- The decoder against the table of patterns.
use riscv_vp.Base.{ℕ, ◌≡◌, ◌≢◌, ◌↔◌, inl, inr, sym, subst, ◌∙◌}
use riscv_vp.Instr.Mapping.{Mapping, Architecture, undef}
use riscv_vp.Instr.Pattern.{pattern_of, Fits}
use riscv_vp.Instr.Decode.{decode_normal}
use riscv_vp.Instr.Decode.Sound.{IsFound, decode-IsFound}
use riscv_vp.Instr.Decode.Complete.{decode-of_Fits}

Fits-of_IsFound :
    (a : Architecture) (i : ℕ) (m : Mapping) → m ≢ undef → IsFound a i m → Fits (pattern_of m a) i
Fits-of_IsFound a i m n (inl e) = absurd (n e)
Fits-of_IsFound a i m n (inr f) = f

-- For every architecture and every word, `decode_normal` answers the instruction `m`, other than
-- `undef`, exactly when the word has, under the mask of `m`, the encoding of `m`.
pub decode_normal_iff :
    (m : Mapping) (a : Architecture) (i : ℕ)
    → m ≢ undef
    → (decode_normal a i ≡ m) ↔ Fits (pattern_of m a) i
decode_normal_iff m a i n = (
  λ e.
      subst (λ k. Fits (pattern_of k a) i) e
        (Fits-of_IsFound a i (decode_normal a i) (λ u. n (sym e ∙ u)) (decode-IsFound a i)),
  decode-of_Fits m a i,
)

-- A word is decoded as `undef` exactly when it fits the pattern of no instruction.
pub decode_undef_iff :
    (a : Architecture) (i : ℕ)
    → (decode_normal a i ≡ undef) ↔ ((m : Mapping) → ¬ Fits (pattern_of m a) i)
unfolding pattern_of
decode_undef_iff a i = (
  λ e m f. undef_unfit m (sym (decode-of_Fits m a i f) ∙ e) f,
  λ none_fits. undef_or (decode-IsFound a i) (none_fits (decode_normal a i)),
)
  where
    undef_unfit : (m : Mapping) → m ≡ undef → ¬ Fits (pattern_of m a) i
    undef_unfit m e f = subst (λ k. Fits (pattern_of k a) i) e f

    undef_or :
        IsFound a i (decode_normal a i)
        → ¬ Fits (pattern_of (decode_normal a i) a) i
        → decode_normal a i ≡ undef
    undef_or (inl e) n = e
    undef_or (inr f) n = absurd (n f)

-- No word fits the patterns of two instructions of one architecture.
pub pattern_of-disjoint :
    (m n : Mapping) (a : Architecture) (i : ℕ)
    → Fits (pattern_of m a) i
    → Fits (pattern_of n a) i
    → m ≡ n
pattern_of-disjoint m n a i f g = sym (decode-of_Fits m a i f) ∙ decode-of_Fits n a i g
