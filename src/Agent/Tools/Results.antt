-- ===== src/Agent/Tools/Results.antt =====
-- Which results of the tools in workers/src/aipanel_worker/tools.py end the call.
use aipanel.Base.{
  ◌≡◌, refl, sym, ap, ◌∙◌, String, Bool, true, false, not, ◌&&◌, ◌||◌, Bool-cases, List, [], ◌∷◌,
  All, Option, none, some, inl, inr, is_empty, if◌then◌else◌, if-true, if-false, subst, ◌==◌,
  string_Key,
}
use aipanel.Base.Dict
use aipanel.Base.Dict.{Dict}
use aipanel.Base.Texts.{strip}
use aipanel.Agent.Tools.{
  ToolResult, ViciPost, World, Args, argument, search_kb, transfer, dnc, callback,
  dispose_not_interested, dispose_qualified, end_call, terminal_tools, is_listed, Tool, tools,
  run_tool, call_tool, dispatch, dnc_post,
}

-- A result ends the call only if the tool succeeded, is listed as one that ends calls, and has a code
-- for the disposition and words to speak.
abbrev pub ends_well : ToolResult → Bool
ends_well r =
    not r.is_terminal
    || (r.success
        && (is_listed r.name terminal_tools
            && (not (r.dispo_code == "") && not (is_empty r.speak))))

EndsWell : Tool → Type 0
EndsWell tool = (args : Args) (w : World) → ends_well (tool args w).0 ≡ true

choose-ends_well :
    (b : Bool) (x y : ToolResult × List ViciPost)
    → ends_well x.0 ≡ true
    → ends_well y.0 ≡ true
    → ends_well (if b then x else y).0 ≡ true
choose-ends_well true x y hx hy = hx
choose-ends_well false x y hx hy = hy

search_kb-EndsWell : EndsWell search_kb
unfolding EndsWell search_kb
search_kb-EndsWell args w =
    choose-ends_well (is_empty (strip (argument "query" args))) _ _ refl
      (choose-ends_well (is_empty w.results) _ _ refl refl)

transfer-EndsWell : EndsWell transfer
unfolding EndsWell transfer
transfer-EndsWell args w =
    choose-ends_well (is_empty (argument "ingroup_id" args)) _ _ refl
      (choose-ends_well w.post_ok _ _ refl refl)

callback-EndsWell : EndsWell callback
unfolding EndsWell callback
callback-EndsWell args w = choose-ends_well w.post_ok _ _ refl refl

dnc-EndsWell : EndsWell dnc
unfolding EndsWell dnc
dnc-EndsWell args w = refl

not_interested-EndsWell : EndsWell dispose_not_interested
unfolding EndsWell dispose_not_interested
not_interested-EndsWell args w = refl

qualified-EndsWell : EndsWell dispose_qualified
unfolding EndsWell dispose_qualified
qualified-EndsWell args w = refl

end_call-EndsWell : EndsWell end_call
unfolding EndsWell end_call
end_call-EndsWell args w = refl

run_tool-ends_well :
    (name : String) (tool : Tool) (args : Args) (w : World)
    → EndsWell tool
    → ends_well (run_tool name tool args w).0 ≡ true
unfolding EndsWell
run_tool-ends_well name tool args w h = choose-ends_well w.crashes _ _ refl (h args w)

or_tool : Tool → Option Tool → Tool
or_tool t none = t
or_tool t (some u) = u

some-injective : {t u : Tool} → some t ≡ some u → t ≡ u
unfolding or_tool
some-injective {t} e = ap (or_tool t) e

get-EndsWell :
    (name : String) (d : Dict String Tool) (tool : Tool)
    → All (λ entry. EndsWell entry.1) d
    → Dict.get name d ≡ some tool
    → EndsWell tool
unfolding Dict.get
get-EndsWell name [] tool hs e = cc
get-EndsWell name ((k, t) ∷ d) tool hs e = elim (Bool-cases (k == name)) [
  | inl same ↦ subst EndsWell (some-injective (sym (if-true _ _ _ same) ∙ e)) hs.0
  | inr other ↦ get-EndsWell name d tool hs.1 (sym (if-false _ _ _ other) ∙ e)
]

tools-EndsWell : All (λ (entry : String × Tool). EndsWell entry.1) tools
tools-EndsWell = (
  search_kb-EndsWell,
  (
    transfer-EndsWell,
    (
      dnc-EndsWell,
      (callback-EndsWell, (not_interested-EndsWell, (qualified-EndsWell, (end_call-EndsWell, tt)))),
    ),
  ),
)

call_tool-ends_well :
    (name : String) (found : Option Tool) (args : Option Args) (w : World)
    → ((tool : Tool) → found ≡ some tool → EndsWell tool)
    → ends_well (call_tool name found args w).0 ≡ true
call_tool-ends_well name none args w h = refl
call_tool-ends_well name (some tool) none w h = refl
call_tool-ends_well name (some tool) (some args) w h =
    run_tool-ends_well name tool args w (h tool refl)

-- Whatever tool the model names, whatever its arguments are and however the world answers: the result
-- ends the call only if the tool succeeded, is one of TERMINAL_TOOLS, and has a code for the
-- disposition and words to speak.
pub dispatch-ends_well :
    (name : String) (args : Option Args) (w : World) → ends_well (dispatch name args w).0 ≡ true
unfolding dispatch
dispatch-ends_well name args w =
    call_tool-ends_well name (Dict.get name tools) args w
      (λ tool e. get-EndsWell name tools tool tools-EndsWell e)

-- Where `mark_dnc` does not crash, the call ends with the code DNC and a result of success, and the
-- post is made, also where the session manager refuses it.
dispatch_dnc :
    (args : Args) (w : World)
    → w.crashes ≡ false
    → let r = dispatch "mark_dnc" (some args) w in
      (r.0.success ≡ true)
      × (r.0.is_terminal ≡ true)
      × (r.0.dispo_code ≡ "DNC")
      × (r.1 ≡ dnc_post (argument "reason" args) ∷ [])
unfolding dispatch dnc Dict.get
dispatch_dnc args w fine =
    let same = if-false {A = ToolResult × List ViciPost} w.crashes _ _ fine in
    (
      ap (λ r. r.0.success) same,
      ap (λ r. r.0.is_terminal) same,
      ap (λ r. r.0.dispo_code) same,
      ap (λ r. r.1) same,
    )
