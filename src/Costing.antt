-- ===== src/Costing.antt =====
-- costing.py: the price of a model and the cost of its tokens. A price is in cents of a dollar per
-- million tokens, a cost in millionths of a euro; floating point is exact arithmetic here, and `round`
-- goes to the nearest, a tie to the even one. The count of the tokens of a text is a parameter.
use text.Mathlib.Text.{starts_with}
use project_os_core.Base.{
  ℕ, suc, ◌+◌, ◌-◌, ◌*◌, ◌/◌, ◌%◌, min, String, Bool, Option, none, some, List, [], ◌∷◌, ltb, eqb,
  ◌==◌, if◌then◌else◌,
}
use project_os_core.Base.Text.{strip, lower, or_text}
use project_os_core.Base.Dict.{Dict, get}

pub record Price : Type 0 where
  pub input : ℕ
  pub output : ℕ

abbrev pub price : ℕ → ℕ → Price
price i o = record { input = i; output = o }

abbrev pub pricing_per_million_usd : Dict Price
pricing_per_million_usd =
    ("gpt-5", price 125 1000)
    ∷ ("gpt-5-mini", price 25 200)
    ∷ ("gpt-5.4", price 250 1500)
    ∷ ("gpt-5.4-pro", price 3000 18_000)
    ∷ ("claude-haiku-4-5-20251001", price 80 400)
    ∷ ("claude-sonnet-4-20250514", price 300 1500)
    ∷ ("claude-opus-4-1", price 1500 7500)
    ∷ []

abbrev pub model_prefix_aliases : List (String × String)
model_prefix_aliases =
    ("gpt-5.4-pro", "gpt-5.4-pro")
    ∷ ("gpt-5.4", "gpt-5.4")
    ∷ ("gpt-5-mini", "gpt-5-mini")
    ∷ ("gpt-5", "gpt-5")
    ∷ ("claude-opus-4-1", "claude-opus-4-1")
    ∷ ("claude-sonnet-4", "claude-sonnet-4-20250514")
    ∷ ("claude-haiku-4-5", "claude-haiku-4-5-20251001")
    ∷ []

abbrev pub alias_price : List (String × String) → String → Option Price
alias_price [] s = none
alias_price ((prefix, alias) ∷ aliases) s =
    if starts_with s prefix then get alias pricing_per_million_usd else alias_price aliases s

abbrev pub price_or : Option Price → Option Price → Option Price
price_or none p = p
price_or (some p) q = some p

unfoldable pub pricing_for_model : Option String → Option Price
unfolding strip lower get
pricing_for_model model =
    let s = lower (strip (or_text model "")) in
    if s == ""
    then none
    else price_or (get s pricing_per_million_usd) (alias_price model_prefix_aliases s)

-- round(n / d), for a positive d
unfoldable pub round_div : ℕ → ℕ → ℕ
round_div n d =
    let q = n / d in
    let twice = 2 * (n % d) in
    if ltb twice d then q else if ltb d twice then suc q else if eqb (q % 2) 0 then q else suc q

-- USD_TO_EUR is 92 hundredths
abbrev pub price_cost : Option Price → ℕ → ℕ → ℕ
price_cost none i o = 0
price_cost (some p) i o = round_div ((i * p.input + o * p.output) * 92) 10_000

unfoldable pub estimate_usage_cost_eur : Option String → ℕ → ℕ → ℕ
unfolding pricing_for_model round_div
estimate_usage_cost_eur model i o = price_cost (pricing_for_model model) i o

pub record UsageCostEstimate : Type 0 where
  pub input_tokens : ℕ
  pub output_tokens : ℕ
  pub estimated_cost_eur : ℕ

abbrev usage : ℕ → ℕ → UsageCostEstimate
usage i o = record { input_tokens = i; output_tokens = o; estimated_cost_eur = 0 }

module _ (estimate_text_tokens : String → ℕ) where
  abbrev prompt_tokens : String → ℕ → ℕ → ℕ
  prompt_tokens message recent base =
      (if eqb base 0 then estimate_text_tokens message + 260 else base) + min recent 8 * 110

  abbrev bonus : Bool → ℕ → ℕ
  bonus longform n = if longform then n else 0

  -- the tokens of the answer, of the mode, of the score above 3 and of the bonus for a long prompt
  abbrev output_tokens : String → Bool → ℕ → ℕ → ℕ
  output_tokens mode longform extra length_bonus =
      if mode == "simple"
      then 220 + 35 * extra + min length_bonus 120 + bonus longform 60
      else if mode == "extreme"
      then (1100 + 140 * extra + min length_bonus 320 + bonus longform 500) * 12 / 10
      else (650 + 80 * extra + min length_bonus 220 + bonus longform 220) * 11 / 10

  -- a negative number of turns, of tokens or of the score acts as 0
  unfoldable pub estimate_discussion_usage : String → String → ℕ → Bool → ℕ → ℕ → UsageCostEstimate
  unfolding strip lower
  estimate_discussion_usage message mode score longform recent base =
      let tokens = prompt_tokens message recent base in
      let length_bonus = min ((tokens - 400) / 4) 320 in
      usage tokens (
        output_tokens (lower (strip (or_text (some mode) "avance"))) longform (score - 3)
          length_bonus)

  abbrev pub class_usage : String → String → ℕ → UsageCostEstimate
  class_usage cost channel tokens =
      if cost == "cheap"
      then (if channel == "discord" then usage (tokens + 420) 260 else usage 0 0)
      else if cost == "hard"
      then usage (tokens + 3200) 1300
      else if cost == "exceptional"
      then usage (tokens + 5200) 2200
      else usage (tokens + 1800) 650

  unfoldable pub estimate_router_usage : String → String → String → UsageCostEstimate
  unfolding strip lower
  estimate_router_usage objective cost channel =
      class_usage (lower (strip (or_text (some cost) "standard"))) (lower (strip channel))
        (estimate_text_tokens objective)
