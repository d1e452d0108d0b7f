-- ===== src/Startup/Tls.antt =====
-- cmd/main.go: which protocols the two servers of a program offer.
use fence_agents_remediation.Prelude.{
  String, ◌≡◌, refl, Bool, true, false, Option, none, some, List, [], ◌∷◌, ◌++◌, if◌then◌else◌,
  arith,
}
use fence_agents_remediation.Libraries.Failures.{FailureApi}
use fence_agents_remediation.Libraries.Text.{TextApi}
use fence_agents_remediation.Validation.{OsApi}
use fence_agents_remediation.Startup.{
  TlsConfig, TlsOpts, Flags, Host, Program, goes_on, no_webhook_options, configure_webhook_opts,
  profile_opts, first_tls_opts, manager_options, main, http1_only,
}
use fence_agents_remediation.Startup.Runs.{main-goes_on}

-- A server applies its options in order.
abbrev pub apply : TlsOpts → TlsConfig → TlsConfig
apply [] c = c
apply (opt ∷ opts) c = apply opts (opt c)

apply-append : (xs ys : TlsOpts) (c : TlsConfig) → apply (xs ++ ys) c ≡ apply ys (apply xs c)
apply-append [] ys c = refl
apply-append (x ∷ xs) ys c = apply-append xs ys (x c)

-- The protocols that a server offers, whose configuration has some before.
abbrev pub offered : Bool → TlsConfig → List String
offered enable_http2 c = if enable_http2 then c.next_protos else "http/1.1" ∷ []

-- The options that the webhook server has before those of a profile.
webhook_opts-tls_opts :
    (os : OsApi) (enable_http2 : Bool)
    → (configure_webhook_opts os no_webhook_options enable_http2).tls_opts
      ≡ first_tls_opts enable_http2
unfolding configure_webhook_opts
webhook_opts-tls_opts os true = ground arith
webhook_opts-tls_opts os false = ground arith

module _ {W P : Type 0} (host : Host W P)
    (keeps : (p : P) (c : TlsConfig) → (host.new_tls_config p c).next_protos ≡ c.next_protos) where
  profile_opts-next_protos :
      (p : Option P) (c : TlsConfig) → (apply (profile_opts host p) c).next_protos ≡ c.next_protos
  profile_opts-next_protos none c = refl
  profile_opts-next_protos (some p) c = keeps p c

  all_opts-next_protos :
      (enable_http2 : Bool) (p : Option P) (c : TlsConfig)
      → (apply (first_tls_opts enable_http2 ++ profile_opts host p) c).next_protos
        ≡ offered enable_http2 c
  all_opts-next_protos true p c = profile_opts-next_protos p c
  all_opts-next_protos false p c = profile_opts-next_protos p (http1_only c)

  -- If a TLS profile leaves the protocols alone, then whatever the cluster, both servers of a program
  -- that has started offer HTTP/1.1 only, unless HTTP/2 is enabled; then the options change none
  -- of the protocols.
  pub main-offered :
      ⦃f : FailureApi⦄
      → ⦃t : TextApi⦄ → (flags : Flags) (w : W) (c : TlsConfig) {program : Program}
      → (main host flags w).0 ≡ goes_on program
      → ((apply program.options.metrics_tls_opts c).next_protos ≡ offered flags.enable_http2 c)
        × ((apply program.options.webhook_server.tls_opts c).next_protos
            ≡ offered flags.enable_http2 c)
  unfolding manager_options
  main-offered flags w c h =
      let (p, _, _, made) = main-goes_on host flags w h in
      rw (made, webhook_opts-tls_opts host.os flags.enable_http2)
        (all_opts-next_protos flags.enable_http2 p c, all_opts-next_protos flags.enable_http2 p c)
