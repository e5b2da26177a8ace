-- ===== src/Settings/QuicSettings.antt =====
-- source/bringauto/settings/QuicSettingsParser.cpp. The widths of the members of QUIC_SETTINGS, which
-- MsQuic declares, and the reading of a JSON number are parameters.
use native.Mathlib.Nat.{mod-eq_of_lt, mod-lt}
use module_gateway.Common.{
  ℕ, ◌%◌, ◌^◌, ◌<◌, String, Bool, true, false, Option, none, some, if◌then◌else◌, ◌≡◌, ◌↔◌, refl,
  subst, arith, zero, suc,
}
use module_gateway.Common.Dict.{find}
use module_gateway.Settings.{ExternalConnectionSettings, text_eq}
use module_gateway.Settings.Parser.{Json}

-- A member of QUIC_SETTINGS, with its bit of IsSet.
pub record Member : Type 0 where
  pub value : ℕ
  pub is_set : Bool

pub record QuicSettings : Type 0 where
  pub idle_timeout_ms : Member
  pub handshake_idle_timeout_ms : Member
  pub disconnect_timeout_ms : Member
  pub peer_unidi_stream_count : Member

-- The number of bits of each member.
pub record Widths : Type 0 where
  pub idle_timeout_ms : ℕ
  pub handshake_idle_timeout_ms : ℕ
  pub disconnect_timeout_ms : ℕ
  pub peer_unidi_stream_count : ℕ

-- The assignment of a number that is given narrows it to the member.
unfoldable pub member_of : ℕ → Option ℕ → Member
member_of width none = record { value = 0; is_set = false }
member_of width (some value) = record { value = value % 2 ^ width; is_set = true }

module _ (j : Json) (is_number_unsigned : j.Value → Bool) (get_unsigned : j.Value → ℕ) where
  unfoldable pub get_optional_uint : ExternalConnectionSettings → String → Option ℕ
  get_optional_uint settings key = elim (find text_eq key settings.protocol_settings) [
    | none ↦ none
    | some raw ↦
        if j.accept raw
        then (if is_number_unsigned (j.parse raw) then some (get_unsigned (j.parse raw)) else none)
        else none
  ]

  unfoldable pub parse : Widths → ExternalConnectionSettings → QuicSettings
  parse widths settings = record {
    idle_timeout_ms = member_of widths.idle_timeout_ms (get_optional_uint settings "IdleTimeoutMs");
    handshake_idle_timeout_ms =
        member_of widths.handshake_idle_timeout_ms
          (get_optional_uint settings "HandshakeIdleTimeoutMs");
    disconnect_timeout_ms =
        member_of widths.disconnect_timeout_ms (get_optional_uint settings "DisconnectTimeoutMs");
    peer_unidi_stream_count =
        member_of widths.peer_unidi_stream_count
          (get_optional_uint settings "PeerUnidiStreamCount");
  }

power_pos : (k : ℕ) → 0 < 2 ^ k
power_pos zero = omega arith
power_pos (suc k) = let ih = power_pos k in omega arith

-- What a member has of the number that is given for it: the flag is set, and the number kept exactly if
-- it fits.
abbrev pub Kept : ℕ → Option ℕ → Member → Type 0
Kept width none m = (m.is_set ≡ false) × (m.value ≡ 0)
Kept width (some value) m = (m.is_set ≡ true) × ((m.value ≡ value) ↔ (value < 2 ^ width))

member_of-Kept : (width : ℕ) (given : Option ℕ) → Kept width given (member_of width given)
unfolding member_of
member_of-Kept width none = (refl, refl)
member_of-Kept width (some value) = (
  refl,
  (λ e. subst (λ v. v < 2 ^ width) e (mod-lt value (power_pos width)), λ l. mod-eq_of_lt l),
)

module _ (j : Json) (is_number_unsigned : j.Value → Bool) (get_unsigned : j.Value → ℕ)
    (widths : Widths) (settings : ExternalConnectionSettings) where
  -- Each member of the settings is set exactly if its key has an unsigned number, and holds that number
  -- exactly if it fits into the member.
  pub parse-Kept :
      let given = get_optional_uint j is_number_unsigned get_unsigned settings in
      let quic = parse j is_number_unsigned get_unsigned widths settings in
      Kept widths.idle_timeout_ms (given "IdleTimeoutMs") quic.idle_timeout_ms
      × Kept widths.handshake_idle_timeout_ms
          (given "HandshakeIdleTimeoutMs")
          quic.handshake_idle_timeout_ms
      × Kept widths.disconnect_timeout_ms (given "DisconnectTimeoutMs") quic.disconnect_timeout_ms
      × Kept widths.peer_unidi_stream_count
          (given "PeerUnidiStreamCount")
          quic.peer_unidi_stream_count
  unfolding parse
  parse-Kept =
      let given = get_optional_uint j is_number_unsigned get_unsigned settings in
      (
        member_of-Kept widths.idle_timeout_ms (given "IdleTimeoutMs"),
        member_of-Kept widths.handshake_idle_timeout_ms (given "HandshakeIdleTimeoutMs"),
        member_of-Kept widths.disconnect_timeout_ms (given "DisconnectTimeoutMs"),
        member_of-Kept widths.peer_unidi_stream_count (given "PeerUnidiStreamCount"),
      )
