-- ===== src/Signing.antt =====
-- packages/shared/src/crypto.ts (`timingSafeEqual`, `hmacVerify`) and packages/shared/src/index.ts:
-- the messages that nodes and the control plane sign.
pub mod Laws
use Prim.Native.Nat.{bit_or, bit_xor}
use opus8_cf.Base.{
  ℕ, ◌+◌, Bool, true, false, not, List, [], ◌∷◌, ◌++◌, ◌==◌, if◌then◌else◌, length, Text, codes,
  lower, upper, join,
}

-- `SIGN_WINDOW_MS`.
abbrev pub sign_window_ms : ℕ
sign_window_ms = 300000

-- The loop of `timingSafeEqual`; `out` gathers the differences of the code units.
unfoldable pub differences : ℕ → Text → Text → ℕ
differences out [] b = out
differences out (x ∷ a) [] = out
differences out (x ∷ a) (y ∷ b) = differences (bit_or out (bit_xor x y)) a b

unfoldable pub timing_safe_equal : Text → Text → Bool
unfolding differences
timing_safe_equal a b = if not (length a == length b) then false else differences 0 a b == 0

-- `canonicalRequestTarget` on the parts of a parsed URL.
abbrev pub canonical_request_target : Text → Text → Text
canonical_request_target pathname search = pathname ++ search

unfoldable pub node_signature_message_v1 : Text → Text → Text → Text
node_signature_message_v1 timestamp node_id body = timestamp ++ (b'.' ∷ (node_id ++ (b'.' ∷ body)))

unfoldable pub node_signature_message_v2 : Text → Text → Text → Text → Text → Text
unfolding join
node_signature_message_v2 timestamp node_id method target body =
    join 10 (codes "opus8-hmac-v2" ∷ timestamp ∷ node_id ∷ upper method ∷ target ∷ body ∷ [])

-- `hmacVerify`, with the signature function of the run time.
unfoldable pub hmac_verify : (Text → Text → Text) → Text → Text → Text → Bool
hmac_verify hmac_sign secret message sig_hex =
    timing_safe_equal (hmac_sign secret message) (lower sig_hex)
