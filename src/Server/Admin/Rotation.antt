-- ===== src/Server/Admin/Rotation.antt =====
-- `dispatch_rotate_bootstrap` of src/server.rs, and what it does to the session.
use remo_broker.Base.{
  ◌≡◌, some, Text, ok, Option-cases, Result-cases, inl, inr, ◌⊎◌, arith, true, codes,
}
use remo_broker.Proto
use remo_broker.Proto.{AdminResponse, Message, rotated}
use remo_broker.Bootstrap.{fetch_token}
use remo_broker.Server.{Backend}
use remo_broker.Server.Session.{reopen}
use remo_broker.Server.Admin.{
  Daemon, Outside, bootstrap_refused, dispatch_rotate_bootstrap, rebuilt, adopted, no_session,
}
use remo_broker.Server.Admin.Messages.{nest, bootstrap_message, session_message}

module _ (b : Backend) (o : Outside) (d : Daemon b.Fnox) where
  -- Refused, with the daemon as it was, or done, with a session that was opened for the
  -- configured file after a token was fetched.
  abbrev pub IsRotation : AdminResponse × Daemon b.Fnox → Type 0
  IsRotation r =
      ((m : Message) × (r ≡ (bootstrap_refused m, d)))
      ⊎ ((old : b.Fnox) × (token : Text) × (session : b.Fnox) × (d.backend ≡ some old)
          × (fetch_token o.world d.config.bootstrap ≡ ok token)
          × (reopen b d.config.fnox_config_path ≡ ok session)
          × (r ≡ (
            rotated (record { ok = true; backend_auth = Proto.BackendAuthState.ok }),
            record d { backend = some session },
          )))

  -- A rotation either is refused with `bootstrap_error` and leaves the whole daemon as it was, its
  -- backend session included, or a token was there, the new session opened, and it alone replaces
  -- the old one; the registry with its caches stays as it was.
  pub dispatch_rotate_bootstrap_sound : IsRotation (dispatch_rotate_bootstrap b o d)
  unfolding dispatch_rotate_bootstrap rebuilt adopted
  dispatch_rotate_bootstrap_sound = elim (Option-cases d.backend) [
    | inl q ↦ inl (no_session, ground arith)
    | inr (old, q) ↦ elim (Result-cases (fetch_token o.world d.config.bootstrap)) [
      | inr (e, t) ↦
          inl (nest (codes "bootstrap token unavailable: ") (bootstrap_message e), ground arith)
      | inl (token, t) ↦ elim (Result-cases (reopen b d.config.fnox_config_path)) [
        | inr (e, u) ↦
            inl (
              nest (codes "failed to rebuild fnox-core session: ") (session_message e),
              ground arith,
            )
        | inl (session, u) ↦ inr (old, token, session, q, t, u, ground arith)
      ]
    ]
  ]
