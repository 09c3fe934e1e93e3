-- ===== src/Aggregator/Content.antt =====
-- `contentHash` of internal/aggregator/session.go. SHA-256 is a parameter.
use argocd_notifier.Prelude.{
  ℕ, ◌+◌, ◌-◌, ◌/◌, ◌%◌, ◌≡◌, ◌≢◌, ap, Bool, [], ◌∷◌, ◌++◌, arith, All, ltb, if◌then◌else◌, ◌==◌,
}
use argocd_notifier.Text.{GoString, text_eq, cut, cut-append}
use argocd_notifier.Event.{Event}

-- What is hashed.
unfoldable pub content : Event → GoString
content ev =
    ev.trigger
    ++ (b'|'
        ∷ (ev.revision
            ++ (b'|'
                ∷ (ev.sync_phase ++ (b'|' ∷ (ev.health_status ++ (b'|' ∷ ev.operation_msg)))))))

abbrev hex_digit : ℕ → ℕ
hex_digit d = if ltb d 10 then b'0' + d else b'a' + (d - 10)

-- hex.EncodeToString
unfoldable pub hex_encode : GoString → GoString
hex_encode [] = []
hex_encode (b ∷ bs) = hex_digit (b / 16) ∷ hex_digit (b % 16) ∷ hex_encode bs

unfoldable pub content_hash : (GoString → GoString) → Event → GoString
content_hash sha256 ev = hex_encode (sha256 (content ev))

unfoldable pub same_hash : (GoString → GoString) → Event → Event → Bool
same_hash sha256 prior ev = content_hash sha256 prior == content_hash sha256 ev

-- The text has no `|`.
abbrev pub NoBar : GoString → Type 0
NoBar s = All (λ c. c ≢ b'|') s

-- The fields that the hash covers.
pub record SameFields (a b : Event) : Type 0 where
  pub trigger : a.trigger ≡ b.trigger
  pub revision : a.revision ≡ b.revision
  pub sync_phase : a.sync_phase ≡ b.sync_phase
  pub health_status : a.health_status ≡ b.health_status
  pub operation_msg : a.operation_msg ≡ b.operation_msg

-- Two texts before the same first separator are one.
before_bar :
    (a b x y : GoString) → NoBar a → NoBar b → a ++ b'|' ∷ x ≡ b ++ b'|' ∷ y → (a ≡ b) × (x ≡ y)
before_bar a b x y ha hb p =
    ground (arith, cut-append a x b'|' ha, cut-append b y b'|' hb, ap (λ s. cut s b'|') p)

-- Where no field but the message holds a `|`, the hashed text determines the five fields.
pub content-SameFields :
    (a b : Event)
    → NoBar a.trigger
    → NoBar b.trigger
    → NoBar a.revision
    → NoBar b.revision
    → NoBar a.sync_phase
    → NoBar b.sync_phase
    → NoBar a.health_status
    → NoBar b.health_status
    → content a ≡ content b
    → SameFields a b
unfolding content
content-SameFields a b ta tb ra rb sa sb ha hb p =
    let p1 = before_bar a.trigger b.trigger _ _ ta tb p in
    let p2 = before_bar a.revision b.revision _ _ ra rb p1.1 in
    let p3 = before_bar a.sync_phase b.sync_phase _ _ sa sb p2.1 in
    let p4 = before_bar a.health_status b.health_status _ _ ha hb p3.1 in
    record {
      trigger = p1.0;
      revision = p2.0;
      sync_phase = p3.0;
      health_status = p4.0;
      operation_msg = p4.1;
    }
