-- ===== src/Market/Governing.antt =====
-- Governance events: decodeGovernance and onGovernance of backend/internal/indexer/governance.go,
-- and InsertGovernanceEvent of backend/internal/db/queries_governance.go.
use magic_webb.Base.{
  hex, ℕ, Bool, true, false, ◌&&◌, Option, none, some, List, [], ◌∷◌, ◌++◌, Bytes, bytes,
  bytes_nat_eq, nat_eqb, ltb, leb, if◌then◌else◌, length, lookup, insert,
}
use magic_webb.Watcher.{applied, malformed, retriable}
use magic_webb.Market.Abi.{Log, topic, chunk, big_int, addr_str, decimal, Event}
use magic_webb.Market.Tables.{Governance, Published, Message, Link}
use magic_webb.Market.Queries.{Db}
use magic_webb.Market.Ownership.{lower}
use magic_webb.Market.Handling.{
  Store, Call, notice, recipients, write, Handler, publish, notice_to, notify,
}

-- The bytes before the zeros at the end.
abbrev pub without_zeros : Bytes → Bytes
without_zeros [] = []
without_zeros (b ∷ bs) = elim (without_zeros bs) [
  | [] ↦ if nat_eqb b 0 then [] else b ∷ []
  | c ∷ cs ↦ b ∷ c ∷ cs
]

abbrev pub is_printable : Bytes → Bool
is_printable [] = true
is_printable (c ∷ cs) = leb 32 c && (leb c 126 && is_printable cs)

abbrev pub bytes32_label : Bytes → Bytes
bytes32_label b = let s = without_zeros b in if is_printable s then s else bytes "0x" ++ hex b

abbrev pub base_event : Event → Log → ℕ → Governance
base_event e l block_time = record {
  event = e;
  contract = addr_str l.address;
  actor = [];
  subject = [];
  extra = [];
  tx_hash = l.tx_hash;
  block_number = l.block_number;
  block_time = block_time;
}

-- `none` is a log of too few topics.
abbrev pub need : ℕ → Log → Governance → Option Governance
need n l g = if ltb (length l.topics) n then none else some g

unfoldable pub eta : Log → Bytes
eta l =
    if leb 32 (length l.payload) then bytes "eta=" ++ decimal (big_int (chunk l.payload 0)) else []

-- The cases of decodeGovernance. Dispatch passes only their events here.
abbrev pub decode_governance : Event → Log → ℕ → Option Governance
decode_governance Event.keeper_set l t = need 3 l (record (base_event Event.keeper_set l t) {
  actor = addr_str (topic l 1);
  subject = addr_str (topic l 2);
})
decode_governance Event.admin_renounced l t =
    need 2 l (record (base_event Event.admin_renounced l t) { actor = addr_str (topic l 1) })
decode_governance Event.admin_transfer_started l t =
    need 3 l (record (base_event Event.admin_transfer_started l t) {
      actor = addr_str (topic l 1);
      subject = addr_str (topic l 2);
    })
decode_governance Event.admin_transfer_cancelled l t =
    need 2 l
      (record (base_event Event.admin_transfer_cancelled l t) { subject = addr_str (topic l 1) })
decode_governance Event.admin_transferred l t =
    need 3 l (record (base_event Event.admin_transferred l t) {
      actor = addr_str (topic l 1);
      subject = addr_str (topic l 2);
    })
decode_governance Event.audit_log l t = need 4 l (record (base_event Event.audit_log l t) {
  actor = addr_str (topic l 2);
  subject = addr_str (topic l 3);
  extra = bytes32_label (topic l 1);
})
decode_governance Event.upgrade_queued l t =
    need 2 l (record (base_event Event.upgrade_queued l t) {
      subject = addr_str (topic l 1);
      extra = eta l;
    })
decode_governance Event.upgrade_cancelled l t =
    need 2 l (record (base_event Event.upgrade_cancelled l t) { subject = addr_str (topic l 1) })
decode_governance Event.upgraded l t =
    need 2 l (record (base_event Event.upgraded l t) { subject = addr_str (topic l 1) })
decode_governance _ l t = none

abbrev pub is_security_alert : Event → Bool
is_security_alert Event.upgrade_queued = true
is_security_alert Event.upgraded = true
is_security_alert Event.keeper_set = true
is_security_alert Event.admin_transfer_started = true
is_security_alert Event.admin_transferred = true
is_security_alert Event.admin_renounced = true
is_security_alert _ = false

-- The loop of fanOutSecurityAlert.
unfoldable pub notify_all : (Call → Bool) → ℕ → Governance → List Bytes → Store → Store
unfolding notify
notify_all fails i g [] s = s
notify_all fails i g (addr ∷ addrs) s =
    notify_all fails i g addrs
      (notify (fails (notice i)) (notice_to addr (Message.security g) Link.status) s)

-- `opted_in` is what ListSecurityAlertRecipients answers.
abbrev pub fan_out : (Call → Bool) → List Bytes → Governance → Store → Store
fan_out fails opted_in g s = if fails recipients then s else notify_all fails 0 g opted_in s

abbrev pub lower_row : Governance → Governance
lower_row g = record g {
  contract = lower g.contract;
  actor = lower g.actor;
  subject = lower g.subject;
  tx_hash = lower g.tx_hash;
}

abbrev pub insert_governance : Bytes × ℕ → Governance → Db → Db
insert_governance k g db = record db {
  governance_events = insert k (lower_row g) db.governance_events;
}

-- A row that was there already is left, and nothing is published.
abbrev pub when_fresh :
    (Call → Bool) → List Bytes → Bytes × ℕ → Governance → Option Governance → Store → Store
when_fresh fails opted_in k g (some row) s = s
when_fresh fails opted_in k g none s =
    let s' =
      publish (Published.governance g)
        (record s { db = insert_governance k g s.db; counted = s.counted ++ g.event ∷ [] }) in
    if is_security_alert g.event then fan_out fails opted_in g s' else s'

-- What follows the decoding.
unfoldable pub store_governance : List Bytes → Option Governance → Handler
unfolding lookup insert publish notify_all lower
store_governance opted_in none fails l s = (s, malformed)
store_governance opted_in (some g) fails l s =
    let k : Bytes × ℕ = (lower g.tx_hash, l.log_index) in
    if fails (write 0)
    then (s, retriable)
    else (when_fresh fails opted_in k g (lookup k s.db.governance_events) s, applied)

unfoldable pub on_governance : List Bytes → Event → ℕ → Handler
unfolding store_governance eta
on_governance opted_in e block_time fails l s =
    store_governance opted_in (decode_governance e l block_time) fails l s
