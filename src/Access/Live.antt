-- ===== src/Access/Live.antt =====
-- Which requests get past the check of their session (api/deps.py).
use Prim.Native.String.{String}
use udesa_x_posts_api.Common.{
  ℕ, ◌<◌, ◌≡◌, refl, sym, ◌∙◌, ◌↔◌, Option, none, some, is_some, Bool, true, false, arith,
}
use mathlib.Core.Path.{subst}
use udesa_x_posts_api.Common.Int.{ℤ, pos, negsuc}
use udesa_x_posts_api.Common.Action.{ok}
use udesa_x_posts_api.Access.{
  Claims, revoked_token_key, revoked_sessions_key, Outside, is_covered, is_session_revoked, ◌>>=◌,
  expected, or_problem, is_administrator, read_cutoff, is_revoked, user_of, unless_revoked,
  get_claims, require_administrator, administrator, invalid_token, auth_unavailable,
}
use udesa_x_posts_api.Access.Results.{
  returned, named_value, answered_value, ok_injective, some_of, same_number, allowed, pair_of_none,
}

fresh_of :
    (n : ℤ) (c : Option ℤ) (i : ℕ)
    → some n ≡ c
    → is_session_revoked false c i ≡ false
    → is_covered i n ≡ false
unfolding is_session_revoked
fresh_of n none i e h = cc
fresh_of n (some m) i e h = rw (sym (same_number n m e)) h

-- After the cutoff, and not in its second.
abbrev pub IssuedAfter : ℤ → ℕ → Type 0
IssuedAfter (pos cutoff) issued_at = cutoff < issued_at
IssuedAfter (negsuc n) issued_at = Unit

covered_after : (n : ℤ) (i : ℕ) → is_covered i n ≡ false → IssuedAfter n i
covered_after (pos cutoff) i h = ground (arith, h)
covered_after (negsuc n) i h = tt

after_covered : (n : ℤ) (i : ℕ) → IssuedAfter n i → is_covered i n ≡ false
after_covered (pos cutoff) i h = ground (arith, h)
after_covered (negsuc n) i h = refl

module _ (O : Outside) where
  -- The mark that closes all sessions of an account, if there is one, is older than the token.
  abbrev pub Outlives : Option String → ℕ → Type 0
  Outlives none issued_at = Unit
  Outlives (some raw) issued_at = (n : ℤ) × (O.int raw ≡ some n) × IssuedAfter n issued_at

  -- A live session: the token is valid and names an account, both marks could be read, its own session
  -- is not marked as closed, and it was issued after all sessions of the account were closed.
  pub record IsLive (token : String) (claims : Claims) : Type 0 where
    pub valid : O.decode token ≡ some claims
    pub sub : String
    pub named : claims.sub ≡ some sub
    pub user_id : ℕ
    pub known : O.uuid sub ≡ some user_id
    pub cutoff : Option String
    pub unmarked :
        O.mget (revoked_token_key claims.jti) (revoked_sessions_key user_id) ≡ some (none, cutoff)
    pub outlives : Outlives cutoff claims.iat

  not_covered :
      (cutoff : Option String) (issued_at : ℕ)
      → Outlives cutoff issued_at
      → (c : Option ℤ) × (read_cutoff O cutoff ≡ ok c)
        × (is_session_revoked false c issued_at ≡ false)
  unfolding is_session_revoked
  not_covered none issued_at h = (none, refl, refl)
  not_covered (some raw) issued_at (n, read, after) =
      (some n, (rw read refl), after_covered n issued_at after)

  fresh_cutoff :
      (cutoff : Option String) (c : Option ℤ) (issued_at : ℕ)
      → read_cutoff O cutoff ≡ ok c
      → is_session_revoked false c issued_at ≡ false
      → Outlives cutoff issued_at
  unfolding is_session_revoked
  fresh_cutoff none c issued_at read h = tt
  fresh_cutoff (some raw) c issued_at read h =
      let (n, number, same) = returned (expected (O.int raw)) (λ n. ok (some n)) c read in
      (
        n,
        named_value (O.int raw) n number,
        covered_after n issued_at (fresh_of n c issued_at (some_of n c same) h),
      )

  live-get_claims :
      (token : String) (claims : Claims) → IsLive token claims → get_claims O token ≡ ok claims
  unfolding get_claims is_revoked
  live-get_claims token claims live =
      let (c, read, fresh) = not_covered live.cutoff claims.iat live.outlives in
      rw live.valid (rw live.named (rw live.known (rw live.unmarked (rw read (rw fresh refl)))))

  unrevoked :
      (b : Bool) (claims c : Claims) → unless_revoked b claims ≡ ok c → (b ≡ false) × (claims ≡ c)
  unrevoked true claims c h = cc
  unrevoked false claims c h = (refl, cc)

  unmarked_token :
      (mark : Option String) (c : Option ℤ) (issued_at : ℕ)
      → is_session_revoked (is_some mark) c issued_at ≡ false
      → (mark ≡ none) × (is_session_revoked false c issued_at ≡ false)
  unfolding is_session_revoked
  unmarked_token none c issued_at h = (refl, h)
  unmarked_token (some m) none issued_at h = cc
  unmarked_token (some m) (some n) issued_at h = cc

  is_revoked-live :
      (jti : String) (u issued_at : ℕ)
      → is_revoked O jti u issued_at ≡ ok false
      → (cutoff : Option String) × (O.mget (revoked_token_key jti) (revoked_sessions_key u)
          ≡ some (none, cutoff))
        × Outlives cutoff issued_at
  unfolding is_revoked
  is_revoked-live jti u issued_at h =
      let (marks, there, rest) =
        returned
          (or_problem (O.mget (revoked_token_key jti) (revoked_sessions_key u)) auth_unavailable)
          (λ m.
            read_cutoff O m.1 >>= λ cutoff. ok (is_session_revoked (is_some m.0) cutoff issued_at))
          false h in
      let (c, read, answer) =
        returned (read_cutoff O marks.1)
          (λ cutoff. ok (is_session_revoked (is_some marks.0) cutoff issued_at)) false rest in
      let (unmarked, fresh) = unmarked_token marks.0 c issued_at (ok_injective _ _ answer) in
      (
        marks.1,
        answered_value _ auth_unavailable marks there ∙ (rw (pair_of_none marks unmarked) refl),
        fresh_cutoff marks.1 c issued_at read fresh,
      )

  get_claims-IsLive :
      (token : String) (claims : Claims) → get_claims O token ≡ ok claims → IsLive token claims
  unfolding get_claims
  get_claims-IsLive token claims h =
      let (c, valid, rest) =
        returned (or_problem (O.decode token) invalid_token)
          (λ c.
            user_of O c >>= λ u. is_revoked O c.jti u c.iat >>= λ revoked. unless_revoked revoked c)
          claims h in
      let (u, user, more) =
        returned (user_of O c)
          (λ u. is_revoked O c.jti u c.iat >>= λ revoked. unless_revoked revoked c) claims rest in
      let (raw, named, known) = returned (expected c.sub) (λ raw. expected (O.uuid raw)) u user in
      let (revoked, read, last) =
        returned (is_revoked O c.jti u c.iat) (λ revoked. unless_revoked revoked c) claims more in
      let (unset, same) = unrevoked revoked c claims last in
      let (cutoff, unmarked, outlives) = is_revoked-live c.jti u c.iat (read ∙ (rw unset refl)) in
      subst (IsLive token) same (record {
        valid = answered_value (O.decode token) invalid_token c valid;
        sub = raw;
        named = named_value c.sub raw named;
        user_id = u;
        known = named_value (O.uuid raw) u known;
        cutoff = cutoff;
        unmarked = unmarked;
        outlives = outlives;
      })

  administrator-role :
      (claims : Claims)
      → require_administrator O claims ≡ ok tt
      → is_administrator claims.role ≡ true
  unfolding require_administrator
  administrator-role claims h = allowed (is_administrator claims.role) h

  role-administrator :
      (claims : Claims)
      → is_administrator claims.role ≡ true
      → require_administrator O claims ≡ ok tt
  unfolding require_administrator
  role-administrator claims h = rw h refl

-- A request gets past the check of its session exactly where the session is live: its token is valid
-- and names an account, both marks could be read, its own session is not closed, and it was issued
-- after the second in which all sessions of the account were closed, if they were. One of the
-- backoffice gets past exactly where, besides, the token has the role of an administrator.
pub administrator-IsLive :
    (O : Outside) (token : String)
    → ((claims : Claims) → get_claims O token ≡ ok claims ↔ IsLive O token claims)
      × (administrator O token ≡ ok tt
          ↔ (claims : Claims) × IsLive O token claims × (is_administrator claims.role ≡ true))
unfolding administrator
administrator-IsLive O token = (
  λ claims. (get_claims-IsLive O token claims, live-get_claims O token claims),
  (
    λ h.
        let (claims, live, passed) = returned (get_claims O token) (require_administrator O) tt h in
        (claims, get_claims-IsLive O token claims live, administrator-role O claims passed),
    λ (claims, live, role).
        rw (live-get_claims O token claims live) (role-administrator O claims role),
  ),
)
