-- ===== src/Slack/Client/MessageRef.antt =====
-- The references of posted messages.
use argocd_notifier.Prelude.{◌≡◌, ◌≢◌, refl, All}
use argocd_notifier.Text.{GoString, cut-append, cut-none}
use argocd_notifier.Slack.Client.{encode_ref, decode_ref, ref_separator}

-- A channel ID has no separator in it.
abbrev pub NoSeparator : GoString → Type 0
NoSeparator s = All (λ c. c ≢ ref_separator) s

-- A reference is read back as the channel and the time stamp that it was made of, whatever recipient is
-- configured, if the channel has no separator in it. A text without a separator is read as a time
-- stamp in the recipient's channel.
pub decode_ref-encode_ref :
    (channel ts recipient : GoString)
    → NoSeparator channel
    → (decode_ref (encode_ref channel ts) recipient ≡ (channel, ts))
      × (decode_ref channel recipient ≡ (recipient, channel))
unfolding decode_ref encode_ref
decode_ref-encode_ref channel ts recipient h = (
  rw (cut-append channel ts ref_separator h, decode_ref) refl,
  rw (cut-none channel ref_separator h, decode_ref) refl,
)
