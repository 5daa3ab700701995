-- ===== src/Wire.antt =====
-- What gRPC does with a call, as a choice made outside the program: a call may be delivered, lost
-- on the way, or carried out with the reply lost; a stream may break after any message.
use bnfs.Base.{ℕ, Bool, true, false, ◌&&◌, if◌then◌else◌}
use bnfs.Server.{Status, ok, cancelled}

pub data Delivery : Type 0 where
  delivered lost unanswered : Delivery

-- `status.ok ()`
abbrev pub is_ok : Status → Bool
is_ok ok = true
is_ok cancelled = false

-- Does the server carry the call out, and does the client see its status?
abbrev pub reaches : Delivery → Bool
reaches delivered = true
reaches lost = false
reaches unanswered = true

abbrev pub returns : Delivery → Bool
returns delivered = true
returns lost = false
returns unanswered = false

-- A unary call: the reply that the client reads, its `status.ok ()`, and the server. Without an OK
-- status the reply object keeps its defaults.
abbrev pub unary {ℓ κ} :
    {R : Type ℓ} {S : Type κ} → Delivery → R → Status → R → S → S → Bool × R × S
unary delivery none_set st reply after before =
    let fine = returns delivery && is_ok st in
    (fine, if fine then reply else none_set, if reaches delivery then after else before)

-- A stream to the client: is the request carried out, how many messages arrive, is the final
-- status OK?
pub record Download : Type 0 where
  pub reached : Bool
  pub arrived : ℕ
  pub finished : Bool

-- A stream to the server: how many writes the client's side accepts, how many messages the server
-- reads, and does the server's status come back?
pub record Upload : Type 0 where
  pub accepted : ℕ
  pub arrived : ℕ
  pub finished : Bool
