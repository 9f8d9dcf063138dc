-- ===== src/Socket/Tokens.antt =====
-- The token bucket of a connection: consumeMsgToken and refillTokens of
-- backend/internal/ws/handler.go.
use magic_webb.Base.{ℕ, ◌+◌, ◌*◌, ◌≤◌, ◌≡◌, Bool, false, List, [], ◌∷◌, arith, if◌then◌else◌}
use magic_webb.Socket.{
  Connection, ws_conn_msg_limit, ws_conn_msg_refill, consume_msg_token, refill_tick,
}

-- A message that asks for a token, or a tick of the refill.
pub data BucketStep : Type 0 where
  message : BucketStep
  tick : BucketStep

-- The connection after the steps, and how many messages were granted.
abbrev pub use_bucket : List BucketStep → Connection → Connection × ℕ
use_bucket [] c = (c, 0)
use_bucket (message ∷ steps) c =
    let (c', granted) = consume_msg_token c in
    let (end, n) = use_bucket steps c' in (end, if granted then n + 1 else n)
use_bucket (tick ∷ steps) c = use_bucket steps (refill_tick c)

abbrev pub ticks : List BucketStep → ℕ
ticks [] = 0
ticks (message ∷ steps) = ticks steps
ticks (tick ∷ steps) = ticks steps + 1

consume-tokens :
    (c : Connection)
    → ((if (consume_msg_token c).1 then 1 else 0) + (consume_msg_token c).0.msg_tokens
        ≡ c.msg_tokens)
      × ((consume_msg_token c).1 ≡ false → c.msg_tokens ≡ 0)
unfolding consume_msg_token
consume-tokens c = ground arith

refill-tokens :
    (c : Connection)
    → c.msg_tokens ≤ ws_conn_msg_limit
    → ((refill_tick c).msg_tokens ≤ c.msg_tokens + ws_conn_msg_refill)
      × ((refill_tick c).msg_tokens ≤ ws_conn_msg_limit)
unfolding refill_tick
refill-tokens c h = ground arith

granted_once : (b : Bool) (n : ℕ) → (if b then n + 1 else n) ≡ (if b then 1 else 0) + n
granted_once b n = ground arith

-- Whatever a client sends, of the messages that it sends while the bucket is refilled `n` times no
-- more are granted than the tokens of the beginning and ten for each refill; the bucket never
-- holds more than its limit, and it refuses only where it is empty.
pub granted-le :
    (steps : List BucketStep) (c : Connection)
    → c.msg_tokens ≤ ws_conn_msg_limit
    → ((use_bucket steps c).1 + (use_bucket steps c).0.msg_tokens
        ≤ c.msg_tokens + ticks steps * ws_conn_msg_refill)
      × ((use_bucket steps c).0.msg_tokens ≤ ws_conn_msg_limit)
      × ((consume_msg_token c).1 ≡ false → c.msg_tokens ≡ 0)
granted-le [] c h = (omega arith, h, (consume-tokens c).1)
granted-le (message ∷ steps) c h =
    let (spent, refused) = consume-tokens c in
    let (total, most, e) = granted-le steps (consume_msg_token c).0 (omega arith) in
    let once = granted_once (consume_msg_token c).1 (use_bucket steps (consume_msg_token c).0).1 in
    (omega arith, most, refused)
granted-le (tick ∷ steps) c h =
    let (grown, bounded) = refill-tokens c h in
    let (total, most, e) = granted-le steps (refill_tick c) bounded in
    (omega arith, most, (consume-tokens c).1)
