-- ===== src/Signing/Laws.antt =====
-- The comparison of signatures (packages/shared/src/crypto.ts) and the signed messages
-- (packages/shared/src/index.ts).
use Prim.Native.Nat.{bit_or, bit_xor}
use opus8_cf.Base.{
  ℕ, ◌≡◌, refl, ◌≢◌, ◌↔◌, true, [], ◌∷◌, ◌++◌, arith, All, length, Text, codes, upper,
}
use opus8_cf.Base.Bits.{bit_xor-eq-zero, bit_or-eq-zero, bit_xor_self}
use opus8_cf.Signing.{differences, timing_safe_equal, node_signature_message_v2}

differences-zero :
    (out : ℕ) (a b : Text) → length a ≡ length b → differences out a b ≡ 0 → (out ≡ 0) × (a ≡ b)
unfolding differences
differences-zero out [] [] l h = (h, refl)
differences-zero out [] (y ∷ b) l h = absurd (omega arith)
differences-zero out (x ∷ a) [] l h = absurd (omega arith)
differences-zero out (x ∷ a) (y ∷ b) l h =
    let (gathered, same) = differences-zero (bit_or out (bit_xor x y)) a b (omega arith) h in
    let (before, here) = bit_or-eq-zero out (bit_xor x y) gathered in
    (before, cc (bit_xor-eq-zero x y here, same))

differences_self : (a : Text) → differences 0 a a ≡ 0
unfolding differences
differences_self [] = refl
differences_self (x ∷ a) = rw (bit_xor_self x) (differences_self a)

-- `timingSafeEqual` answers true exactly on equal strings.
pub timing_safe_equal_iff : (a b : Text) → (timing_safe_equal a b ≡ true) ↔ (a ≡ b)
unfolding timing_safe_equal
timing_safe_equal_iff a b = (
  λ h. (differences-zero 0 a b (ground arith) (ground arith)).1,
  λ e. rw e (ground (arith, differences_self b)),
)

-- No codes-IsLine end.
abbrev pub IsLine : Text → Type 0
IsLine s = All (λ c. c ≢ 10) s

-- What stands before the first codes-IsLine end is determined by the whole.
line-split :
    (a b s t : Text) → IsLine a → IsLine b → a ++ (10 ∷ s) ≡ b ++ (10 ∷ t) → (a ≡ b) × (s ≡ t)
line-split [] [] s t h k e = ground arith
line-split [] (y ∷ b) s t h k e = absurd (k.0 (ground arith))
line-split (x ∷ a) [] s t h k e = absurd (h.0 (ground arith))
line-split (x ∷ a) (y ∷ b) s t h k e =
    let (same, rest) = line-split a b s t h.1 k.1 (ground arith) in (ground arith, rest)

-- Two v2 messages that are equal were made for the same time, node, method in upper case, target
-- and body, where the parts before the body are lines.
pub message_v2-injective :
    (ts ts' node node' method method' target target' body body' : Text)
    → IsLine ts
    → IsLine ts'
    → IsLine node
    → IsLine node'
    → IsLine (upper method)
    → IsLine (upper method')
    → IsLine target
    → IsLine target'
    → node_signature_message_v2 ts node method target body
      ≡ node_signature_message_v2 ts' node' method' target' body'
    → (ts ≡ ts')
      × (node ≡ node')
      × (upper method ≡ upper method')
      × (target ≡ target')
      × (body ≡ body')
unfolding node_signature_message_v2
message_v2-injective ts ts' node node' method method' target target' body body' a a' b b' c c' d d'
      e =
    let (_, e₁) =
      line-split (codes "opus8-hmac-v2") (codes "opus8-hmac-v2") _ _ (omega arith) (omega arith)
        e in
    let (same_ts, e₂) = line-split ts ts' _ _ a a' e₁ in
    let (same_node, e₃) = line-split node node' _ _ b b' e₂ in
    let (same_method, e₄) = line-split (upper method) (upper method') _ _ c c' e₃ in
    let (same_target, same_body) = line-split target target' body body' d d' e₄ in
    (same_ts, same_node, same_method, same_target, same_body)
