-- ===== src/Auth/Tokens/Issued.antt =====
-- The session that issueTokens stores.
use gotra.Prelude.{ℕ, ◌+◌, ◌≡◌, Str, Bool, false, none, some, [], ◌∷◌, ◌++◌, arith, any, str_eq}
use gotra.Errors.{ok}
use gotra.Store.{User, Session}
use gotra.Store.Action.{Env, World, statement}
use gotra.Auth.Sessions.{create_session}
use gotra.Auth.Tokens.{
  ClientInfo, Login, token_hash, issue_access_token, generate_opaque_token, issue_tokens,
}

module _ (env : Env) where
  -- The session behind a refresh token that was issued at the time `now`.
  abbrev pub session_for : ℕ → ℕ → Str → ClientInfo → ℕ → Session
  session_for id user_id token client now = record {
    id = id;
    user_id = user_id;
    refresh_token_hash = token_hash env token;
    ip_address = client.ip;
    user_agent = client.user_agent;
    expires_at = now + env.refresh_ttl;
    revoked_at = none;
  }

  abbrev pub has_hash : Str → Session → Bool
  has_hash hash s = str_eq s.refresh_token_hash hash

  -- Where issueTokens returns, it has stored one session, for the user, under the hash of the
  -- refresh token that it returns, open and with the configured life, where no session had this
  -- hash. The access token is signed for the user, the workspace and the role that it returns, and
  -- nothing else in the tables has changed.
  pub issue_tokens-ok :
      (user : User) (workspace_id : ℕ) (role : Str) (client : ClientInfo) (w : World) {r : Login}
      {w' : World}
      → issue_tokens env user workspace_id role client w ≡ (ok r, w')
      → (w'.committed ≡ record w.committed {
        sessions =
            w.committed.sessions
            ++ session_for (env.new_id w.statements) user.id r.refresh_token client w.now ∷ [];
      })
        × (any (has_hash (token_hash env r.refresh_token)) w.committed.sessions ≡ false)
        × (r.user ≡ user)
        × (r.workspace_id ≡ workspace_id)
        × (r.role ≡ role)
        × (env.sign user.id workspace_id role (w.now + env.access_ttl) ≡ some r.access_token)
        × (w'.outbox ≡ w.outbox)
  unfolding issue_tokens issue_access_token generate_opaque_token create_session statement
  issue_tokens-ok user workspace_id role client w h = ground arith
