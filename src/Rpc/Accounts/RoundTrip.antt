-- ===== src/Rpc/Accounts/RoundTrip.antt =====
-- The two mappings of an account between the wire and the model, in crates/nunciod/src/grpc.rs.
use nuncio.Common.{ℕ, ◌^◌, ◌<◌, ◌≡◌, refl, sym, ap, ◌↔◌, ok, >>=-eq-ok, ok-inj, arith}
use mathlib.Core.Path.{subst}
use nuncio.Core.Config.{AccountConfig, AccountProtocol, TlsMode}
use nuncio.Rpc.Service.{Status}
use nuncio.Rpc.Accounts.Wire.{
  AccountConfigProto, AccountProtocolProto, TlsModeProto, map_account_protocol_to_proto,
  map_account_protocol_from_proto, map_tls_mode_to_proto, map_tls_mode_from_proto, to_u16,
  map_account_config_to_proto, map_account_config_from_proto,
}

protocol_back :
    (p : AccountProtocol) → map_account_protocol_from_proto (map_account_protocol_to_proto p) ≡ ok p
unfolding map_account_protocol_from_proto map_account_protocol_to_proto
protocol_back AccountProtocol.jmap = refl
protocol_back AccountProtocol.imap_smtp = refl

protocol_forth :
    (w : AccountProtocolProto) {p : AccountProtocol}
    → map_account_protocol_from_proto w ≡ ok p
    → map_account_protocol_to_proto p ≡ w
unfolding map_account_protocol_from_proto map_account_protocol_to_proto
protocol_forth AccountProtocolProto.jmap h = ap map_account_protocol_to_proto (sym (ok-inj h))
protocol_forth AccountProtocolProto.imap_smtp h = ap map_account_protocol_to_proto (sym (ok-inj h))
protocol_forth AccountProtocolProto.unspecified h = cc h

tls_back : (m : TlsMode) → map_tls_mode_from_proto (map_tls_mode_to_proto m) ≡ ok m
unfolding map_tls_mode_from_proto map_tls_mode_to_proto
tls_back TlsMode.implicit_tls = refl
tls_back TlsMode.start_tls = refl
tls_back TlsMode.plain = refl

tls_forth :
    (w : TlsModeProto) {m : TlsMode}
    → map_tls_mode_from_proto w ≡ ok m
    → map_tls_mode_to_proto m ≡ w
unfolding map_tls_mode_from_proto map_tls_mode_to_proto
tls_forth TlsModeProto.implicit_tls h = ap map_tls_mode_to_proto (sym (ok-inj h))
tls_forth TlsModeProto.start_tls h = ap map_tls_mode_to_proto (sym (ok-inj h))
tls_forth TlsModeProto.plain h = ap map_tls_mode_to_proto (sym (ok-inj h))
tls_forth TlsModeProto.unspecified h = cc h

to_u16_iff : (e : Status) (n m : ℕ) → (to_u16 e n ≡ ok m) ↔ ((m ≡ n) × (n < 2 ^ 16))
unfolding to_u16
to_u16_iff e n m = ground arith

-- A message is accepted as an account exactly when it is the message of that account and both ports
-- of the account fit 16 bits: mapping an account to the wire and back gives the account, and a
-- message with an unspecified protocol or TLS mode, or a port that does not fit, is refused.
pub map_account_config_from_proto_iff :
    (message : AccountConfigProto) (config : AccountConfig)
    → (map_account_config_from_proto message ≡ ok config) ↔ (
        (map_account_config_to_proto config ≡ message)
        × (config.server_port < 2 ^ 16)
        × (config.smtp_port < 2 ^ 16))
unfolding map_account_config_from_proto map_account_config_to_proto
map_account_config_from_proto_iff message config = (accepted, mapped)
  where
    accepted :
        map_account_config_from_proto message ≡ ok config
        → (map_account_config_to_proto config ≡ message)
          × (config.server_port < 2 ^ 16)
          × (config.smtp_port < 2 ^ 16)
    accepted h =
        let (p, e1, h1) = >>=-eq-ok (map_account_protocol_from_proto message.protocol) _ h in
        let (i, e2, h2) = >>=-eq-ok (map_tls_mode_from_proto message.imap_tls_mode) _ h1 in
        let (s, e3, h3) = >>=-eq-ok (map_tls_mode_from_proto message.smtp_tls_mode) _ h2 in
        let (q, e4, h4) = >>=-eq-ok (to_u16 _ message.server_port) _ h3 in
        let (r, e5, h5) = >>=-eq-ok (to_u16 _ message.smtp_port) _ h4 in
        let (q-eq, q-lt) = (to_u16_iff _ _ _).0 e4 in
        let (r-eq, r-lt) = (to_u16_iff _ _ _).0 e5 in
        subst
          (λ c.
            (map_account_config_to_proto c ≡ message)
            × (c.server_port < 2 ^ 16)
            × (c.smtp_port < 2 ^ 16))
          (ok-inj h5)
          (
            rw
                (
                  protocol_forth message.protocol e1,
                  tls_forth message.imap_tls_mode e2,
                  tls_forth message.smtp_tls_mode e3,
                  q-eq,
                  r-eq,
                )
                refl,
            omega arith,
            omega arith,
          )

    mapped :
        (map_account_config_to_proto config ≡ message)
          × (config.server_port < 2 ^ 16)
          × (config.smtp_port < 2 ^ 16)
        → map_account_config_from_proto message ≡ ok config
    mapped (e, q, r) =
        subst (λ m. map_account_config_from_proto m ≡ ok config) e
          (rw
            (
              protocol_back config.protocol,
              tls_back config.imap_tls_mode,
              tls_back config.smtp_tls_mode,
              (to_u16_iff _ config.server_port config.server_port).1 (refl, q),
              (to_u16_iff _ config.smtp_port config.smtp_port).1 (refl, r),
            )
            refl)
