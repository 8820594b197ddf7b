-- ===== src/Overload/Defined.antt =====
-- No assertion of `HasBetterConversion` fails in the resolution of a call.
use glsld.Prelude.{
  ◌≡◌, Bool, true, false, not, ◌&&◌, List, [], ◌∷◌, Option, none, some, if◌then◌else◌, arith,
  Bool-cases, inl, inr, if_both,
}
use glsld.GlslType.{TypeDesc, is_convertible_to}
use glsld.GlslType.Conversion.{HasGlslMatrix, has_better_conversion-cost}
use glsld.Overload.{
  FunctionParamSymbolEntry, FunctionSymbolEntry, is_exact, is_invocable, FirstPass, exact,
  candidates, add_candidate, first_pass, ◌>>=◌, count_better,
}

-- A result is there.
abbrev pub IsDefined : {A : Type 0} → Option A → Type 0
IsDefined none = ⊥
IsDefined (some a) = Unit

pub bind-IsDefined :
    {A B : Type 0} (o : Option A) (f : A → Option B)
    → IsDefined o
    → ((a : A) → IsDefined (f a))
    → IsDefined (o >>= f)
bind-IsDefined none f h g = h
bind-IsDefined (some a) f h g = g a

abbrev pub AllGlslMatrix : List TypeDesc → Type 0
AllGlslMatrix [] = Unit
AllGlslMatrix (a ∷ args) = HasGlslMatrix a × AllGlslMatrix args

abbrev pub AllInvocable : List TypeDesc → List FunctionSymbolEntry → Type 0
AllInvocable args [] = Unit
AllInvocable args (c ∷ cs) = (is_invocable args c.param_entries ≡ true) × AllInvocable args cs

input_converts :
    (i c o d rest : Bool)
    → (if i && not c then false else if o && not d then false else rest) ≡ true
    → i ≡ true
    → c ≡ true
input_converts i c o d rest h e = ground arith

rest_converts :
    (i c o d rest : Bool)
    → (if i && not c then false else if o && not d then false else rest) ≡ true
    → rest ≡ true
rest_converts i c o d rest h = ground arith

invocable_parts :
    (a : TypeDesc) (args : List TypeDesc) (p : FunctionParamSymbolEntry)
    (params : List FunctionParamSymbolEntry)
    → is_invocable (a ∷ args) (p ∷ params) ≡ true
    → (p.is_input ≡ true → is_convertible_to a p.type ≡ true) × (is_invocable args params ≡ true)
unfolding is_invocable
invocable_parts a args p params h =
    let c = is_convertible_to a p.type in
    let d = is_convertible_to p.type a in
    let rest = is_invocable args params in
    (
      input_converts p.is_input c p.is_output d rest h,
      rest_converts p.is_input c p.is_output d rest h,
    )

both_inputs : (i j : Bool) → (i && j) ≡ true → (i ≡ true) × (j ≡ true)
both_inputs i j h = ground arith

pub count_better-IsDefined :
    (args : List TypeDesc) (params others : List FunctionParamSymbolEntry)
    → AllGlslMatrix args
    → is_invocable args params ≡ true
    → is_invocable args others ≡ true
    → IsDefined (count_better args params others)
unfolding count_better
count_better-IsDefined [] params others w h k = tt
count_better-IsDefined (a ∷ args) [] others w h k = tt
count_better-IsDefined (a ∷ args) (p ∷ params) [] w h k = tt
count_better-IsDefined (a ∷ args) (p ∷ params) (q ∷ others) w h k =
    let (input_p, rest_p) = invocable_parts a args p params h in
    let (input_q, rest_q) = invocable_parts a args q others k in
    let rest = count_better-IsDefined args params others w.1 rest_p rest_q in
    elim (Bool-cases (p.is_input && q.is_input)) [
      | inr e ↦ rw e rest
      | inl e ↦
          let (i, j) = both_inputs p.is_input q.is_input e in
          let to_p = input_p i in
          let to_q = input_q j in
          rw
            (
              e,
              has_better_conversion-cost a p.type q.type w.0 to_p to_q,
              has_better_conversion-cost a q.type p.type w.0 to_q to_p,
            )
            (bind-IsDefined (count_better args params others) _ rest (λ r. tt))
    ]

abbrev pub CandidatesInvocable : List TypeDesc → FirstPass → Type 0
CandidatesInvocable args (exact d) = Unit
CandidatesInvocable args (candidates cs) = AllInvocable args cs

add-CandidatesInvocable :
    (args : List TypeDesc) (c : FunctionSymbolEntry) (f : FirstPass)
    → is_invocable args c.param_entries ≡ true
    → CandidatesInvocable args f
    → CandidatesInvocable args (add_candidate c f)
add-CandidatesInvocable args c (exact d) h k = tt
add-CandidatesInvocable args c (candidates cs) h k = (h, k)

pub first_pass-CandidatesInvocable :
    (args : List TypeDesc) (b : Bool) (cs : List FunctionSymbolEntry)
    → CandidatesInvocable args (first_pass args b cs)
unfolding first_pass
first_pass-CandidatesInvocable args b [] = tt
first_pass-CandidatesInvocable args b (c ∷ cs) =
    let rest = first_pass-CandidatesInvocable args b cs in
    if_both (CandidatesInvocable args) (is_exact args c.param_entries) _ _ tt
      (elim (Bool-cases (is_invocable args c.param_entries)) [
        | inl h ↦
            if_both (CandidatesInvocable args) (is_invocable args c.param_entries && not b) _ _
              (add-CandidatesInvocable args c (first_pass args b cs) h rest) rest
        | inr h ↦ rw h rest
      ])
