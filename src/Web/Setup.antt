-- ===== src/Web/Setup.antt =====
-- NewHandler of internal/web/handlers.go: the templates that it parses, in order.
use toyotaview.Common.{
  Bool, not, Option, none, some, List, [], ◌∷◌, String, GoError, new_error, wrapped, if◌then◌else◌,
}

-- The files of a template, and what the error of their parsing is wrapped in.
pub record Template : Type 0 where
  pub files : List String
  pub failure : String

unfoldable pub templates : List Template
templates =
    record {
      files = "templates/base.html" ∷ "templates/dashboard.html" ∷ [];
      failure = "parse dashboard templates";
    }
    ∷ record {
      files = "templates/base.html" ∷ "templates/vehicle.html" ∷ [];
      failure = "parse vehicle templates";
    }
    ∷ record {
      files = "templates/base.html" ∷ "templates/login.html" ∷ [];
      failure = "parse login templates";
    }
    ∷ record {
      files = "templates/base.html" ∷ "templates/signup.html" ∷ [];
      failure = "parse signup templates";
    }
    ∷ record {
      files = "templates/base.html" ∷ "templates/error.html" ∷ [];
      failure = "parse error templates";
    }
    ∷ []

-- `parse_fs` is template.ParseFS on the embedded files, by its error.
module _ (parse_fs : List String → Option GoError) where
  unfoldable pub parse_all : List Template → Option GoError
  parse_all [] = none
  parse_all (t ∷ ts) =
      let rest = parse_all ts in
      elim (parse_fs t.files) [ some e ↦ some (wrapped t.failure e) | none ↦ rest ]

  -- NewHandler, by its error; a handler without one is its arguments and the parsed templates.
  unfoldable pub new_handler : Bool → Option GoError
  unfolding parse_all templates
  new_handler has_authenticator =
      if not has_authenticator
      then some (new_error "authenticator is required")
      else parse_all templates
