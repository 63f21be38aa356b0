-- ===== src/Shim/Page.antt =====
-- The NIP-11 responses of crates/outlay-shim/src/nip11.rs, but for the two fetches. Of the request's
-- headers the code reads `Accept`: absent, or a value that `to_str` may refuse.
pub mod Markup
use outlay.Base.{ℕ, Bool, true, false, Option, some, none, [], ◌∷◌, ◌++◌, if◌then◌else◌}
use outlay.Base.Opt.{◌>>=◌, unwrap_or}
use outlay.Base.Text.{Text, codes, contains}
use outlay.Json.{Json}
use outlay.Shim.Escape.{esc}

pub record Response : Type 0 where
  pub status : ℕ
  pub content_type : Text
  -- `Access-Control-Allow-Origin: *`
  pub any_origin : Bool
  pub body : Text

abbrev pub Accept : Type 0
Accept = Option (Option Text)

abbrev pub nip11_json : Text
nip11_json = codes "application/nostr+json"

unfoldable pub wants_json : Accept → Bool
wants_json none = false
wants_json (some none) = false
wants_json (some (some s)) = contains nip11_json s

unfoldable pub plain : ℕ → Text → Response
plain status msg = record {
  status = status;
  content_type = codes "text/plain; charset=utf-8";
  any_origin = false;
  body = msg;
}

unfoldable pub button_open : Text
button_open = codes "<p><a class=\"btn\" href=\"https://jumble.social/?r="

unfoldable pub button_close : Text
button_close =
    codes "\" target=\"_blank\" rel=\"noopener noreferrer\">Open feed in Jumble ↗</a></p>"

unfoldable pub jumble_button : Option Text → Text
unfolding button_open button_close
jumble_button none = []
jumble_button (some relay) = button_open ++ esc relay ++ button_close

unfoldable pub head : Text
head = codes "<!doctype html><html lang=\"en\"><head><meta charset=\"utf-8\"><title>"

unfoldable pub style : Text
style =
    codes
      "</title><style>body{font-family:system-ui,sans-serif;max-width:46rem;margin:2rem auto;padding:0 1rem}"
    ++ codes
        ".btn{display:inline-block;padding:.5rem 1rem;background:#6c4efc;color:#fff;text-decoration:none;border-radius:.5rem}"
    ++ codes
        "pre{background:#f5f5f5;padding:1rem;overflow:auto;border-radius:.5rem}</style></head><body><h1>"

unfoldable pub intro : Text
intro =
    codes "</h1><p>outlay-shim bridge. Nostr clients: request this URL with "
    ++ codes "<code>Accept: application/nostr+json</code> for the NIP-11 document.</p>"

unfoldable pub pre_open : Text
pre_open = codes "<pre>"

unfoldable pub pre_close : Text
pre_close = codes "</pre></body></html>"

-- The page for a name, a link and a printed document.
unfoldable pub page : Text → Option Text → Text → Text
unfolding jumble_button head style intro pre_open pre_close
page name jumble pretty =
    head
    ++ esc name
    ++ style
    ++ esc name
    ++ intro
    ++ jumble_button jumble
    ++ pre_open
    ++ esc pretty
    ++ pre_close

module _ (J : Json) where
  open J use {
    Value, string, number, boolean, array, object, empty, insert, find, as_str, as_object,
    to_string_pretty,
  }

  unfoldable pub name_of : Value → Text
  name_of doc =
      unwrap_or (do m ← as_object doc; v ← find (codes "name") m; as_str v) (codes "Nostr relay")

  unfoldable pub pretty_of : Value → Text
  pretty_of doc = unwrap_or (to_string_pretty doc) (codes "{}")

  unfoldable pub render_html : Value → Option Text → Text
  unfolding name_of pretty_of page
  render_html doc jumble = page (name_of doc) jumble (pretty_of doc)

  unfoldable pub render : Value → Accept → Option Text → Response
  unfolding wants_json pretty_of render_html
  render doc accept jumble =
      if wants_json accept
      then record {
        status = 200;
        content_type = nip11_json;
        any_origin = true;
        body = pretty_of doc;
      }
      else record {
        status = 200;
        content_type = codes "text/html; charset=utf-8";
        any_origin = false;
        body = render_html doc jumble;
      }

  -- `version` is the crate's version.
  unfoldable pub synth_root : Text → Value
  synth_root version = object (
      insert (codes "description")
        (string (
          codes
            "Local NIP-01 bridge to CVM-exposed outlay servers. Connect at /<server-pubkey> (hex, npub, or nprofile)."))
        (insert (codes "limitation") (object (insert (codes "bridge") (boolean true) empty)) (
          insert (codes "supported_nips") (array (number 1 ∷ number 11 ∷ [])) (
            insert (codes "version") (string version) (
              insert (codes "software") (string (codes "outlay-shim"))
                (insert (codes "name") (string (codes "outlay-shim")) empty))))))

  unfoldable pub serve_root : Text → Accept → Response
  unfolding synth_root render
  serve_root version accept = render (synth_root version) accept none
