-- ===== src/Mutes.antt =====
-- MuteRepository (app/repositories/mutes.py).
pub mod Service
use udesa_x_posts_api.Common.{ℕ, Bool, ◌&&◌, ◌||◌, not, ◌∷◌, ◌==◌}
use udesa_x_posts_api.Common.Rows.{exists, delete}
use udesa_x_posts_api.Common.Action.{
  when◌run◌otherwise◌, Action, pure, gets, modify, crash_if, ◌>>=◌, ◌>>◌,
}
use udesa_x_posts_api.Database.{Db, MuteRow, Tick}
use udesa_x_posts_api.Follows.{profile_exists}

abbrev pub mute_pair : ℕ → ℕ → MuteRow → Bool
mute_pair a b r = r.muter_id == a && r.muted_id == b

-- `ck_mutes_not_self` and the two foreign keys; a repeated pair is not refused.
unfoldable pub refuses_mute : ℕ → ℕ → Db → Bool
refuses_mute a b d = a == b || not (profile_exists a d) || not (profile_exists b d)

-- `MuteRepository.add`: muting twice leaves the first one as it was.
unfoldable pub add_mute : Tick → ℕ → ℕ → Action Db (Unit {0})
add_mute t a b = do
  there ← gets (λ d. exists (mute_pair a b) d.mutes)
  when there run pure tt otherwise do
    refused ← gets (refuses_mute a b)
    crash_if refused
    modify (λ d. record d {
      mutes = (record { muter_id = a; muted_id = b; created_at = t.now }) ∷ d.mutes;
    })

-- `MuteRepository.remove`
unfoldable pub remove_mute : ℕ → ℕ → Action Db (Unit {0})
remove_mute a b = modify (λ d. record d { mutes = delete (mute_pair a b) d.mutes })

unfoldable pub is_muted : ℕ → ℕ → Action Db Bool
is_muted a b = gets (λ d. exists (mute_pair a b) d.mutes)
