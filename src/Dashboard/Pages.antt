-- ===== src/Dashboard/Pages.antt =====
-- The text of the cost page. The stylesheet is an argument, and so is the printing of numbers.
use llmbus.Shared.{
  ℕ, String, Option, none, some, List, [], ◌∷◌, map, length, ◌==◌, ◌&&◌, if◌then◌else◌,
}
use llmbus.Python.Platform.{Platform}
use llmbus.Python.Texts.{join_with}
use llmbus.Store.Costs.{ProjectDayCost}
use llmbus.Dashboard.{Amounts, Total, CostSummary, bar_width_pct, to_decimal, format_usd}
use llmbus.Html.{esc, join}

module _ (P : Platform) (A : Amounts P.Float) (decimal : ℕ → String)
    (four_places : P.Float → String) where
  -- `max(amounts)`, from a first one
  abbrev largest_of : A.Amount → List (Total P A) → A.Amount
  largest_of best [] = best
  largest_of best (total ∷ totals) =
      largest_of (if A.lt best total.amount then total.amount else best) totals

  bar_row : A.Amount → Total P A → String
  bar_row largest total =
      let label = esc total.key in
      let value = format_usd P A total.amount in
      join (
        "<div class=\"row\" title=\""
        ∷ label
        ∷ ": "
        ∷ value
        ∷ "\">"
        ∷ "<div class=\"row-label\">"
        ∷ label
        ∷ "</div>"
        ∷ "<div class=\"track\"><div class=\"bar\" style=\"width:"
        ∷ four_places (bar_width_pct P A total.amount largest)
        ∷ "%\"></div></div>"
        ∷ "<div class=\"row-value\">"
        ∷ value
        ∷ "</div>"
        ∷ "</div>"
        ∷ [])

  -- `_bar_rows` of totals that are not empty
  bar_rows : Total P A → List (Total P A) → String
  unfolding bar_row
  bar_rows total totals =
      join_with "\n" (map (bar_row (largest_of total.amount totals)) (total ∷ totals))

  chart : String → String → List (Total P A) → String
  unfolding bar_rows
  chart title caption [] = ""
  chart title caption (total ∷ totals) = join (
      "<section class=\"card\">"
      ∷ "<h2>"
      ∷ esc title
      ∷ "</h2>"
      ∷ "<p class=\"caption\">"
      ∷ esc caption
      ∷ "</p>"
      ∷ "<div class=\"chart\">"
      ∷ bar_rows total totals
      ∷ "</div>"
      ∷ "</section>"
      ∷ [])

  -- `max(totals, key=amount)`: the first of the greatest
  abbrev peak_of : Total P A → List (Total P A) → Total P A
  peak_of best [] = best
  peak_of best (total ∷ totals) =
      peak_of (if A.lt best.amount total.amount then total else best) totals

  abbrev first_key : List (Total P A) → String
  first_key [] = "—"
  first_key (total ∷ totals) = esc total.key

  abbrev peak_key : List (Total P A) → String
  peak_key [] = "—"
  peak_key (total ∷ totals) = esc (peak_of total totals).key

  abbrev tile : String × String → String
  tile (label, value) = join (
      "<div class=\"tile\"><div class=\"tile-label\">" ∷ label ∷ "</div>"
      ∷ "<div class=\"tile-value\">" ∷ value ∷ "</div></div>" ∷ [])

  tiles : CostSummary P A → String
  tiles summary = join (
      "<div class=\"tiles\">"
      ∷ join (
          map tile (
            ("Projects", decimal (length summary.by_project))
            ∷ ("Days with spend", decimal (length summary.by_day))
            ∷ ("Top project", first_key summary.by_project)
            ∷ ("Peak day", peak_key summary.by_day)
            ∷ []))
      ∷ "</div>"
      ∷ [])

  -- `cells[(project, day)]`: of equal keys the last one counts
  abbrev cell_at : String → String → Option A.Amount → List (ProjectDayCost P) → Option A.Amount
  cell_at project day found [] = found
  cell_at project day found (row ∷ rows) =
      cell_at project day
        (if row.project == project && row.day == day
          then some (to_decimal P A row.cost_usd)
          else found)
        rows

  abbrev cell_text : Option A.Amount → String
  cell_text none = "—"
  cell_text (some amount) = format_usd P A amount

  body_row : List (ProjectDayCost P) → List (Total P A) → Total P A → String
  body_row rows projects day = join (
      "<tr><th>"
      ∷ esc day.key
      ∷ "</th>"
      ∷ join (
          map
            (λ project.
              join ("<td>" ∷ cell_text (cell_at project.key day.key none rows) ∷ "</td>" ∷ []))
            projects)
      ∷ "<td>"
      ∷ format_usd P A day.amount
      ∷ "</td></tr>"
      ∷ [])

  filled_table : CostSummary P A → String
  unfolding body_row
  filled_table summary = join (
      "<section class=\"card\"><h2>Every project and day</h2>"
      ∷ "<p class=\"caption\">The same figures the charts encode, as numbers.</p>"
      ∷ "<div class=\"scroll\"><table><thead><tr><th>Day</th>"
      ∷ join (map (λ project. join ("<th>" ∷ esc project.key ∷ "</th>" ∷ [])) summary.by_project)
      ∷ "<th>Total</th></tr></thead>"
      ∷ "<tbody>"
      ∷ join (map (body_row summary.rows summary.by_project) summary.by_day)
      ∷ "</tbody><tfoot><tr><th>Total</th>"
      ∷ join (
          map (λ project. join ("<td>" ∷ format_usd P A project.amount ∷ "</td>" ∷ []))
            summary.by_project)
      ∷ "<td>"
      ∷ format_usd P A summary.grand_total
      ∷ "</td></tr></tfoot></table></div></section>"
      ∷ [])

  empty_table : String
  empty_table = join (
      "<section class=\"card\"><h2>No spend recorded yet</h2>"
      ∷ "<p class=\"caption\">The ledger counts only jobs that completed with a non-zero "
      ∷ "cost. A store holding only pending, failed, or zero-cost jobs is empty here "
      ∷ "and that is correct — it is not an error.</p></section>" ∷ [])

  -- `_table`, and `_empty_note`: one of them has text
  cost_table : List (ProjectDayCost P) → CostSummary P A → String
  unfolding filled_table
  cost_table [] summary = ""
  cost_table (row ∷ rows) summary = filled_table summary

  empty_note : List (ProjectDayCost P) → String
  unfolding empty_table
  empty_note [] = empty_table
  empty_note (row ∷ rows) = ""

  unfoldable pub render_dashboard : String → CostSummary P A → P.Datetime → String → String
  unfolding tiles empty_note chart cost_table
  render_dashboard style summary generated_at store_path = join (
      "<!doctype html>\n<html lang=\"en\">\n<head>\n<meta charset=\"utf-8\">\n"
      ∷ "<meta name=\"viewport\" content=\"width=device-width, initial-scale=1\">\n"
      ∷ "<title>llmbus — cost ledger</title>\n<style>"
      ∷ style
      ∷ "</style>\n</head>\n<body>\n"
      ∷ "<main>\n<header>\n<h1>llmbus — cost ledger</h1>\n<p class=\"meta\">Generated "
      ∷ esc (P.iso_seconds generated_at)
      ∷ " from <code>"
      ∷ esc store_path
      ∷ "</code></p>\n</header>\n<div class=\"hero\">\n<div class=\"hero-label\">Total spend</div>\n"
      ∷ "<div class=\"hero-value\">"
      ∷ format_usd P A summary.grand_total
      ∷ "</div>\n</div>\n"
      ∷ tiles summary
      ∷ "\n"
      ∷ empty_note summary.rows
      ∷ "\n"
      ∷ chart "Spend by project" "Total USD per project, largest first." summary.by_project
      ∷ "\n"
      ∷ chart "Spend by day" "Total USD per day the bus recorded spend." summary.by_day
      ∷ "\n"
      ∷ cost_table summary.rows summary
      ∷ "\n<footer>\nCosts are priced at the rate in force on each job's submission date "
      ∷ "(cost.py).\nDays without recorded spend are absent, not zero.\n</footer>\n</main>\n"
      ∷ "</body>\n</html>\n"
      ∷ [])
