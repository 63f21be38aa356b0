-- ===== src/Env/Load.antt =====
-- `load` of crates/outlay/src/config.rs and of crates/outlay-shim/src/config.rs. `dotenvy` is not part
-- of the repository: what it makes of the environment with a file of variables is a parameter.
use outlay.Base.{Bool, Option, some, none, ◌≡◌, refl, ap, ◌∙◌}
use outlay.Base.Opt.{or_else}
use outlay.Base.Res.{Result}
use outlay.Base.Text.{Text, codes}
use outlay.Config
use outlay.Config.{ServerConfig, read_server_config}
use outlay.Env.{Env}
use outlay.Shim.Config as ShimSettings
use outlay.Shim.Config.{ShimConfig, read_shim_config}

-- The environment once the file of this name was loaded.
abbrev pub Dotenv : Type 0
Dotenv = Text → Env → Env

-- A file sets the variables that are not set, and a file that is not there sets none.
pub record IsDotenv (dotenv : Dotenv) : Type 0 where
  pub contents : Text → Env
  pub keeps :
      (file : Text) (live : Env) (name : Text)
      → dotenv file live name ≡ or_else (live name) (contents file name)

module _ (dotenv : Dotenv) where
  -- `.env`, then `.env.local`
  unfoldable pub environment : Env → Env
  environment live = dotenv (codes ".env.local") (dotenv (codes ".env") live)

  unfoldable pub load_server : Bool → Env → Result Config.ConfigError ServerConfig
  unfolding environment
  load_server bundled_relay live = read_server_config bundled_relay (environment live)

  unfoldable pub load_shim : Env → Result ShimSettings.ConfigError ShimConfig
  unfolding environment
  load_shim live = read_shim_config (environment live)

or_else_assoc : (a b c : Option Text) → or_else (or_else a b) c ≡ or_else a (or_else b c)
or_else_assoc none b c = refl
or_else_assoc (some s) b c = refl

-- The first write wins: a variable has its value from the live environment, else from `.env`, and
-- else from `.env.local`.
pub environment_lem :
    (dotenv : Dotenv) (D : IsDotenv dotenv) (live : Env) (name : Text)
    → environment dotenv live name
      ≡ or_else
          (live name)
          (or_else (D.contents (codes ".env") name) (D.contents (codes ".env.local") name))
unfolding environment
environment_lem dotenv D live name =
    D.keeps (codes ".env.local") (dotenv (codes ".env") live) name
    ∙ ap (λ o. or_else o (D.contents (codes ".env.local") name)) (D.keeps (codes ".env") live name)
    ∙ or_else_assoc (live name) _ _
