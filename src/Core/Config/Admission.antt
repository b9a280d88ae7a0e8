-- ===== src/Core/Config/Admission.antt =====
-- Which accounts `validate` of crates/nuncio-core/src/config.rs accepts.
use nuncio.Common.{
  ℕ, ◌≤◌, ◌≡◌, ◌≢◌, ◌↔◌, refl, sym, String, Bool, true, false, not, ◌||◌, Option, none, some,
  Result, ok, ◌>>◌, ltb, ◌==◌, arith,
}
use mathlib.Core.Path.{subst}
use nuncio.Common.Text.{contains_char}
use nuncio.Core.Config.{
  AccountConfig, ConfigError, refuse, is_blank, domain_part, has_dotted_domain, validate_account,
  min_sync_interval_secs,
}

-- The named texts are not blank, the address has a domain with a dot, the ports are not zero, and the
-- interval is at least ten seconds.
pub record IsUsable (a : AccountConfig) : Type 0 where
  pub has_id : is_blank a.id ≡ false
  pub has_name : is_blank a.name ≡ false
  pub has_email : is_blank a.email_address ≡ false
  pub has_at : contains_char a.email_address b'@' ≡ true
  pub has_domain :
      (domain : String) × (domain_part a.email_address ≡ some domain)
      × (contains_char domain b'.' ≡ true)
  pub has_host : is_blank a.server_host ≡ false
  pub has_port : a.server_port ≢ 0
  pub has_smtp_host : is_blank a.smtp_host ≡ false
  pub has_smtp_port : a.smtp_port ≢ 0
  pub has_key : is_blank a.keyring_secret_key ≡ false
  pub is_slow : min_sync_interval_secs ≤ a.sync_interval_secs

refuse_iff : (b : Bool) (e : ConfigError) → (refuse b e ≡ ok tt) ↔ (b ≡ false)
refuse_iff true e = (λ h. cc h, λ h. cc h)
refuse_iff false e = (λ h. refl, λ h. refl)

dotted_iff :
    (o : Option String)
    → (has_dotted_domain o ≡ true)
      ↔ ((domain : String) × (o ≡ some domain) × (contains_char domain b'.' ≡ true))
unfolding has_dotted_domain
dotted_iff none = (λ h. cc h, λ (d, e, h). cc e)
dotted_iff (some domain) =
    (λ h. (domain, refl, h), λ (d, e, h). subst (λ o. has_dotted_domain o ≡ true) (sym e) h)

-- One check and what follows it.
step_iff :
    (b : Bool) (e : ConfigError) (k : Result ConfigError (Unit {0}))
    → ((refuse b e >> k) ≡ ok tt) ↔ ((b ≡ false) × (k ≡ ok tt))
step_iff true e k = (λ h. cc h, λ h. cc (h.0))
step_iff false e k = (λ h. (refl, h), λ h. h.1)

address_iff : (a b : Bool) → ((not a || not b) ≡ false) ↔ ((a ≡ true) × (b ≡ true))
address_iff a b = ground arith

port_iff : (n : ℕ) → ((n == 0) ≡ false) ↔ (n ≢ 0)
port_iff n = ground arith

interval_iff : (n : ℕ) → (ltb n min_sync_interval_secs ≡ false) ↔ (min_sync_interval_secs ≤ n)
interval_iff n = ground arith

-- An account is accepted exactly when its id, name, address, both hosts and key name are not blank,
-- its address has an "@" and a dot somewhere after the first one, both ports are not zero, and the
-- sync interval is at least ten seconds.
pub validate_account_iff : (a : AccountConfig) → (validate_account a ≡ ok tt) ↔ IsUsable a
unfolding validate_account
validate_account_iff a = (accepted, usable)
  where
    accepted : validate_account a ≡ ok tt → IsUsable a
    accepted h =
        let (i, h1) = (step_iff _ _ _).0 h in
        let (n, h2) = (step_iff _ _ _).0 h1 in
        let (m, h3) = (step_iff _ _ _).0 h2 in
        let (d, h4) = (step_iff _ _ _).0 h3 in
        let (s, h5) = (step_iff _ _ _).0 h4 in
        let (p, h6) = (step_iff _ _ _).0 h5 in
        let (t, h7) = (step_iff _ _ _).0 h6 in
        let (q, h8) = (step_iff _ _ _).0 h7 in
        let (k, h9) = (step_iff _ _ _).0 h8 in
        let (at, dotted) = (address_iff _ _).0 d in
        record {
          has_id = i;
          has_name = n;
          has_email = m;
          has_at = at;
          has_domain = (dotted_iff _).0 dotted;
          has_host = s;
          has_port = (port_iff _).0 p;
          has_smtp_host = t;
          has_smtp_port = (port_iff _).0 q;
          has_key = k;
          is_slow = (interval_iff _).0 ((refuse_iff _ _).0 h9);
        }

    usable : IsUsable a → validate_account a ≡ ok tt
    usable u = (step_iff _ _ _).1 (
      u.has_id,
      (step_iff _ _ _).1 (
        u.has_name,
        (step_iff _ _ _).1 (
          u.has_email,
          (step_iff _ _ _).1 (
            (address_iff _ _).1 (u.has_at, (dotted_iff _).1 u.has_domain),
            (step_iff _ _ _).1 (
              u.has_host,
              (step_iff _ _ _).1 (
                (port_iff _).1 u.has_port,
                (step_iff _ _ _).1 (
                  u.has_smtp_host,
                  (step_iff _ _ _).1 (
                    (port_iff _).1 u.has_smtp_port,
                    (step_iff _ _ _).1
                        (u.has_key, (refuse_iff _ _).1 ((interval_iff _).1 u.is_slow)),
                  ),
                ),
              ),
            ),
          ),
        ),
      ),
    )
