-- ===== src/Config/Tests.antt =====
-- An environment with the key and an origin only.
use ticket_watcher.Prelude.{◌≡◌, refl, false, none, str_eq, ℕ, if◌then◌else◌}
use ticket_watcher.Prelude.Outcome.{ok}
use ticket_watcher.Config.{Environment, settings, load, load-ok, ends_in_slash, trim_right_slashes}

abbrev env : Environment ℕ
env = record {
  lookup = λ key.
      if str_eq key "TM_API_KEY"
      then "k"
      else if str_eq key "APP_BASE_URL"
      then "https://t//"
      else "";
  atoi = λ v. none;
  parse_float = λ v. none;
  parse_duration = λ v. none;
  float = λ n. n;
}

origin : (settings env).app_base_url ≡ "https://t"
unfolding trim_right_slashes
origin = refl

loads : load env ≡ ok (settings env)
unfolding load
loads = refl

load-ok_example :
    (str_eq (settings env).tm_api_key "" ≡ false)
    × (ends_in_slash (settings env).app_base_url ≡ false)
load-ok_example = load-ok env (settings env) loads
