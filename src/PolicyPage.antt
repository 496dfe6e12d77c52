-- ===== src/PolicyPage.antt =====
-- The policy page of src/llmbus/policy_page.py. The stylesheet is an argument, and
-- so is the printing of a number.
use llmbus.Shared.{ℕ, length, String, Option, none, some, List, [], ◌∷◌, map, ◌==◌, if◌then◌else◌}
use llmbus.Python.Platform.{Platform}
use llmbus.Providers.{
  Capability, chat, transcription, embedding, models_with_capability, capabilities,
}
use llmbus.Store.Rows.{ModelPolicy}
use llmbus.Html.{esc, join}

abbrev pub capability_order : List Capability
capability_order = chat ∷ transcription ∷ embedding ∷ []

abbrev capability_name : Capability → String
capability_name chat = "chat"
capability_name transcription = "transcription"
capability_name embedding = "embedding"

abbrev selected_mark : String → Option String → String
selected_mark model none = ""
selected_mark model (some selected) = if model == selected then " selected" else ""

option : Option String → String → String
option selected model = join (
    "<option value=\""
    ∷ esc model
    ∷ "\""
    ∷ selected_mark model selected
    ∷ ">"
    ∷ esc model
    ∷ "</option>"
    ∷ [])

option_group : Option String → Capability → List String → String
unfolding option
option_group selected capability [] = ""
option_group selected capability (model ∷ models) = join (
    "<optgroup label=\""
    ∷ esc (capability_name capability)
    ∷ "\">"
    ∷ join (map (option selected) (model ∷ models))
    ∷ "</optgroup>"
    ∷ [])

placeholder : Option String → String
placeholder none = "<option value=\"\" disabled selected>choose a model…</option>"
placeholder (some selected) = ""

unfoldable pub model_options : Option String → String
unfolding option_group placeholder models_with_capability
model_options selected = join (
    placeholder selected
    ∷ map (λ capability. option_group selected capability (models_with_capability capability))
        capability_order)

unfoldable pub add_form : String
unfolding model_options
add_form = join (
    "<form method=\"post\" action=\"/policy\" class=\"add\">"
    ∷ "<input name=\"project\" placeholder=\"project\" required>"
    ∷ "<input name=\"kind\" placeholder=\"kind (e.g. language.chat)\" required>"
    ∷ "<select name=\"model\" required>"
    ∷ model_options none
    ∷ "</select>"
    ∷ "<button type=\"submit\">Set</button></form>"
    ∷ [])

module _ (P : Platform) where
  policy_row : ModelPolicy P → String
  unfolding model_options
  policy_row policy = join (
      "<tr><td>"
      ∷ esc policy.project
      ∷ "</td><td>"
      ∷ esc policy.kind
      ∷ "</td>"
      ∷ "<td><form method=\"post\" action=\"/policy\">"
      ∷ "<input type=\"hidden\" name=\"project\" value=\""
      ∷ esc policy.project
      ∷ "\">"
      ∷ "<input type=\"hidden\" name=\"kind\" value=\""
      ∷ esc policy.kind
      ∷ "\">"
      ∷ "<select name=\"model\">"
      ∷ model_options (some policy.model)
      ∷ "</select>"
      ∷ "<button type=\"submit\">Save</button></form></td>"
      ∷ "<td class=\"stamp\">"
      ∷ esc (P.iso_seconds policy.updated_at)
      ∷ "</td>"
      ∷ "</tr>"
      ∷ [])

  unfoldable pub policy_rows : List (ModelPolicy P) → String
  unfolding policy_row
  policy_rows policies = join (map policy_row policies)

  policy_table : List (ModelPolicy P) → String
  unfolding policy_rows
  policy_table [] = join (
      "<p class=\"empty\">No policies set yet. Until a pair is configured here, a job "
      ∷ "that leaves its model unset is refused at submit — deliberately, so a project "
      ∷ "never runs on a model nobody chose for it.</p>" ∷ [])
  policy_table (policy ∷ policies) = join (
      "<div class=\"scroll\"><table>"
      ∷ "<thead><tr><th>Project</th><th>Kind</th><th>Model</th><th>Changed</th></tr></thead>"
      ∷ "<tbody>"
      ∷ policy_rows (policy ∷ policies)
      ∷ "</tbody></table></div>"
      ∷ [])

  banner : Option String → String
  banner none = ""
  banner (some notice) =
      if notice == "" then "" else join ("<div class=\"banner\">" ∷ esc notice ∷ "</div>" ∷ [])

  unfoldable pub render_policy_page :
      String → (ℕ → String) → List (ModelPolicy P) → P.Datetime → Option String → String
  unfolding policy_table banner add_form
  render_policy_page style decimal policies generated_at notice = join (
      "<!doctype html>\n<html lang=\"en\">\n<head>\n<meta charset=\"utf-8\">\n"
      ∷ "<meta name=\"viewport\" content=\"width=device-width, initial-scale=1\">\n"
      ∷ "<title>llmbus — model policy</title>\n<style>"
      ∷ style
      ∷ "</style>\n</head>\n<body>\n"
      ∷ "<main>\n<header>\n<h1>llmbus — model policy</h1>\n"
      ∷ "<p class=\"meta\">Which model each project and kind runs on ·\n"
      ∷ "<a href=\"/\">cost ledger</a> · "
      ∷ esc (P.iso_seconds generated_at)
      ∷ "</p>\n</header>\n"
      ∷ banner notice
      ∷ "\n<section class=\"card\">\n<h2>Current policy</h2>\n"
      ∷ policy_table policies
      ∷ "\n</section>\n<section class=\"card\">\n<h2>Set a policy</h2>\n"
      ∷ "<p class=\"caption\">An existing project and kind is replaced; a new pair is added.</p>\n"
      ∷ add_form
      ∷ "\n</section>\n<footer>\nModels come from the bus registry ("
      ∷ decimal (length capabilities)
      ∷ " registered) and are grouped by what\nthey serve. Adding a model, or changing a price, is"
      ∷ " a code change with a verified rate —\nnever editable here.\n</footer>\n</main>\n"
      ∷ "</body>\n</html>\n"
      ∷ [])
