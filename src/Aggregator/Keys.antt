-- ===== src/Aggregator/Keys.antt =====
-- The keys of internal/aggregator: of a session, and of a tracked message.
use argocd_notifier.Prelude.{◌≡◌, ◌↔◌, Bool, true, ◌&&◌, arith, Eq}
use argocd_notifier.Text.{GoString, text_eq, str_eq, str_eq_iff}

pub record SessionKey : Type 0 where
  pub group_key : GoString
  pub revision : GoString
  pub trigger : GoString

unfoldable pub session_key_beq : SessionKey → SessionKey → Bool
session_key_beq a b =
    str_eq a.group_key b.group_key && (str_eq a.revision b.revision && str_eq a.trigger b.trigger)

pub session_key_beq_iff : (a b : SessionKey) → (session_key_beq a b ≡ true) ↔ (a ≡ b)
unfolding session_key_beq
session_key_beq_iff a b = ground (
  arith,
  str_eq_iff a.group_key b.group_key,
  str_eq_iff a.revision b.revision,
  str_eq_iff a.trigger b.trigger,
)

instance abbrev pub session_key_eq : Eq SessionKey
session_key_eq = record { beq = session_key_beq; beq_iff = session_key_beq_iff }

-- One destination: a backend, and a recipient as that backend understands it.
pub record RefKey : Type 0 where
  pub backend : GoString
  pub recipient : GoString

unfoldable pub ref_key_beq : RefKey → RefKey → Bool
ref_key_beq a b = str_eq a.backend b.backend && str_eq a.recipient b.recipient

pub ref_key_beq_iff : (a b : RefKey) → (ref_key_beq a b ≡ true) ↔ (a ≡ b)
unfolding ref_key_beq
ref_key_beq_iff a b =
    ground (arith, str_eq_iff a.backend b.backend, str_eq_iff a.recipient b.recipient)

instance abbrev pub ref_key_eq : Eq RefKey
ref_key_eq = record { beq = ref_key_beq; beq_iff = ref_key_beq_iff }
