-- ===== src/Tests/Environment.antt =====
-- The environment that the build script reads and the one that it writes.
use ginit.Base.{◌≡◌, refl, true, Bytes, List, ◌++◌, none, some, text}
use ginit.Build.Str.{is_utf8}
use ginit.Build.Profile.{Entry, get, get_profile_env}
use ginit.Build.Profile.Lines.{profile_text, last_value, AreExports, get_profile_env-profile_text}
use ginit.Build.Env.{without_rootpath, pushed_env, sway_env}
use ginit.Build.Env.Lookup.{least, get-sway_env}
use ginit.Tests.Host.{profile, greg, settings}

profile_utf8 : is_utf8 (profile_text profile) ≡ true
unfolding is_utf8 profile_text text
profile_utf8 = refl

profile_exports : AreExports profile
unfolding text
profile_exports = (
  record {
    key_line = (refl, (refl, (refl, (refl, (refl, (refl, tt))))));
    key_name = (refl, (refl, (refl, (refl, (refl, (refl, tt))))));
    value_line = (refl, (refl, (refl, (refl, (refl, (refl, (refl, (refl, (refl, tt)))))))));
    value_quotes = (refl, (refl, (refl, (refl, (refl, (refl, (refl, (refl, (refl, tt)))))))));
    value_backslashes = (refl, (refl, (refl, (refl, (refl, (refl, (refl, (refl, (refl, tt)))))))));
  },
  (
    record {
      key_line = (refl, (refl, (refl, (refl, (refl, (refl, (refl, (refl, tt))))))));
      key_name = (refl, (refl, (refl, (refl, (refl, (refl, (refl, (refl, tt))))))));
      value_line =
          (refl, (refl, (refl, (refl, (refl, (refl, (refl, (refl, (refl, (refl, tt))))))))));
      value_quotes =
          (refl, (refl, (refl, (refl, (refl, (refl, (refl, (refl, (refl, (refl, tt))))))))));
      value_backslashes =
          (refl, (refl, (refl, (refl, (refl, (refl, (refl, (refl, (refl, (refl, tt))))))))));
    },
    tt,
  ),
)

get_profile_env-profile_text_example :
    (env : List Entry) × (get_profile_env (some (profile_text profile)) ≡ some env)
    × ((key : Bytes) → get key env ≡ last_value key none profile)
get_profile_env-profile_text_example =
    get_profile_env-profile_text profile profile_utf8 profile_exports

get-sway_env_example :
    get (text "EDITOR") (sway_env profile settings.ui.env greg)
    ≡ least (text "EDITOR") (without_rootpath profile ++ (settings.ui.env ++ pushed_env greg))
get-sway_env_example = get-sway_env (text "EDITOR") profile settings.ui.env greg
