-- ===== src/Libraries/Template.antt =====
-- text/template of Go's standard library, on the data that the program gives it. A parsed template
-- is named by its text.
use fence_agents_remediation.Prelude.{String, ◌≡◌, Option, none}
use fence_agents_remediation.Errors.{Error, Result, ok}
use text.Mathlib.Text.{find?}

pub record TemplateEngine : Type 0 where
  pub parse : String → Option Error  -- template.New("far-template").Parse(text)
  pub execute : String → String → Result String  -- Execute with the given NodeName
  -- A text without "{{" is a template that renders as itself.
  pub parse_plain : (text : String) → find? text "{{" ≡ none → parse text ≡ none
  pub execute_plain : (text node : String) → find? text "{{" ≡ none → execute text node ≡ ok text
