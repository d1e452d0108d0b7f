-- ===== src/Template.antt =====
-- pkg/template/template.go.
use fence_agents_remediation.Prelude.{String, none, some, ◌==◌, if◌then◌else◌}
use fence_agents_remediation.Errors.{Result, ok, err, message, wrapped}
use fence_agents_remediation.Libraries.Template.{TemplateEngine}

-- TemplateData
pub record TemplateData : Type 0 where
  pub node_name : String

module _ ⦃t : TemplateEngine⦄ where
  -- processTemplateString
  unfoldable pub process_template_string : String → TemplateData → Result String
  process_template_string text fields = elim (t.parse text) [
    | some e ↦ err (wrapped "failed to parse template: " e)
    | none ↦ elim (t.execute text fields.node_name) [
      | err e ↦ err (wrapped "failed to execute template: " e)
      | ok rendered ↦ ok rendered
    ]
  ]

  -- RenderParameterTemplate
  unfoldable pub render_parameter_template : String → String → Result String
  unfolding process_template_string
  render_parameter_template text node_name =
      if node_name == ""
      then err (message "nodeName cannot be empty")
      else process_template_string text (record { node_name = node_name })
