-- ===== src/Web/Lifespan/Restart.antt =====
-- A restart signs nobody out: the signing key that a start leaves is the one that the next start finds.
use aptly_gui.Prelude.{
  ℕ, ◌+◌, ◌≤◌, ◌≡◌, refl, sym, ap, ◌∙◌, Option, none, some, List, [], ◌∷◌, ◌++◌, arith, if-true,
}
use aptly_gui.Text.{Text, same}
use aptly_gui.Text.Laws.{same_refl}
use aptly_gui.Exec.{◌>>=◌}
use aptly_gui.Aptly.Client.{Outside}
use aptly_gui.Db.Models.{AppSetting, Tables}
use aptly_gui.Services.Space.{Margin}
use aptly_gui.Jobs.State.{clock, change, commit, committed}
use aptly_gui.Jobs.Run.{recover_orphans}
use aptly_gui.Jobs.Queue.{start}
use aptly_gui.Web.Provided.{SessionData}
use aptly_gui.Web.Session.{Signer, Documented, Keys, read_session, write_session}
use aptly_gui.Web.Session.Request.{read-write}
use aptly_gui.Web.Settings.{
  get_setting, new_setting, secret_key_key, stored_key, resolve_secret_key,
}
use aptly_gui.Web.Lifespan.{Config, lifespan}

get_setting-append :
    (key value : Text) (rows : List AppSetting)
    → get_setting key rows ≡ none
    → get_setting key (rows ++ new_setting key value ∷ []) ≡ some (new_setting key value)
unfolding get_setting
get_setting-append key value [] h = if-true _ (same key key) (same_refl key)
get_setting-append key value (row ∷ rows) h = ground (arith, h, get_setting-append key value rows)

-- The key of a start, where its row is the one that an earlier start left.
stored_key-kept :
    (new other : Text) (found : Option AppSetting) (rows later : List AppSetting)
    → get_setting secret_key_key rows ≡ found
    → get_setting secret_key_key later ≡ get_setting secret_key_key (stored_key new found rows).1
    → (stored_key other (get_setting secret_key_key later) later).0 ≡ (stored_key new found rows).0
unfolding stored_key
stored_key-kept new other none rows later f h =
    ap (λ x. (stored_key other x later).0) (h ∙ get_setting-append secret_key_key new rows f)
stored_key-kept new other (some row) rows later f h = ap (λ x. (stored_key other x later).0) (h ∙ f)

resolve_secret_key-kept :
    (configured new other : Text) (rows later : List AppSetting)
    → get_setting secret_key_key later
      ≡ get_setting secret_key_key (resolve_secret_key configured new rows).1
    → (resolve_secret_key configured other later).0 ≡ (resolve_secret_key configured new rows).0
unfolding resolve_secret_key
resolve_secret_key-kept [] new other rows later h = stored_key-kept new other _ rows later refl h
resolve_secret_key-kept (c ∷ configured) new other rows later h = refl

module _ (o : Outside) (margin : Margin) (timeout fuel : ℕ) (config : Config) where
  -- A restart with the same configuration, on tables that have the row of the key as the start before
  -- left it, whatever else has changed and whatever new token it draws: a session that was written
  -- before it is read after it, where itsdangerous does what it documents and the session is not
  -- older than it may be, nor from the future.
  pub lifespan-reads :
      (signer : Signer) (new other : Text) (before after : o.State) (t later : Tables) (at now : ℕ)
      (session : SessionData)
      → let app = lifespan o margin timeout fuel config new before t in
        let again = lifespan o margin timeout fuel config other after later in
        Documented signer
        → get_setting secret_key_key later.settings
          ≡ get_setting secret_key_key app.world.own.live.settings
        → at ≤ now
        → now ≤ at + config.session_max_age
        → read_session signer again.keys now (some (write_session signer app.keys at session).value)
          ≡ session
  unfolding lifespan start recover_orphans ◌>>=◌ clock change commit committed
  lifespan-reads signer new other before after t later at now session doc kept since age =
      let app = lifespan o margin timeout fuel config new before t in
      let again = lifespan o margin timeout fuel config other after later in
      let same_key : (resolve_secret_key config.secret_key other later.settings).0
          ≡ (resolve_secret_key config.secret_key new t.settings).0 =
        resolve_secret_key-kept config.secret_key new other t.settings later.settings kept in
      let same_keys : app.keys ≡ again.keys =
        ap (λ (key : Text). record app.keys { secret_key = key }) (sym same_key) in
      ap
        (λ (keys : Keys).
          read_session signer again.keys now (some (write_session signer keys at session).value))
        same_keys
      ∙ read-write signer again.keys now [] at session doc since age
