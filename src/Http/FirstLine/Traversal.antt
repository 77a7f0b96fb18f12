-- ===== src/Http/FirstLine/Traversal.antt =====
-- No first line leaves a path that climbs.
use java_io_tserver.Common.{ℕ, ◌≡◌, arith, true, [], ◌∷◌, none, some, inl, inr, Option-cases}
use java_io_tserver.Common.Text.{Bytes, break_at}
use java_io_tserver.Http.Request.{Request, c_str}
use java_io_tserver.Http.FirstLine.{
  parse_method, starts_dots, before_dots, read_target, read_protocol, check_path, after_method,
  first_line_pars,
}

starts_dots_prefix :
    (c : ℕ) (cs p : Bytes)
    → before_dots cs ≡ some p
    → starts_dots (c ∷ p) ≡ true
    → starts_dots (c ∷ cs) ≡ true
unfolding before_dots starts_dots
starts_dots_prefix c [] p h k = cc
starts_dots_prefix c (d ∷ []) p h k = ground arith
starts_dots_prefix c (d ∷ e ∷ []) p h k = ground arith
starts_dots_prefix c (d ∷ e ∷ f ∷ cs) p h k = ground arith

-- What is kept of a path holds no "/..".
before_dots-none : (t p : Bytes) → before_dots t ≡ some p → before_dots p ≡ none
unfolding before_dots
before_dots-none [] p h = cc
before_dots-none (c ∷ cs) p h = elim (Option-cases (before_dots cs)) [
  | inl absent ↦ ground arith
  | inr (q, found) ↦ ground (arith, before_dots-none cs q found, starts_dots_prefix c cs q found)
]

check_path_lem : (rq : Request) → before_dots (check_path rq).0.path ≡ none
unfolding check_path
check_path_lem rq = elim (Option-cases (before_dots rq.path)) [
  | inl clean ↦ ground arith
  | inr (p, found) ↦ ground (arith, before_dots-none rq.path p found)
]

after_method_path :
    (rest : Bytes) (rq : Request)
    → before_dots rq.path ≡ none
    → before_dots (after_method rest rq).0.path ≡ none
unfolding after_method
after_method_path rest rq h = elim (Option-cases (break_at b' ' rest)) [
  | inl no_path ↦ rw (no_path, after_method) h
  | inr ((path_str, proto), found) ↦
      rw (found, after_method) (check_path_lem (read_protocol proto (read_target path_str rq)))
]

-- A first line that is read into a request whose path holds no "/.." leaves a path that holds
-- none, whatever the line is, whatever its escapes stand for, and whether or not it is refused.
pub first_line_pars_path :
    (line : Bytes) (rq : Request)
    → before_dots rq.path ≡ none
    → before_dots (first_line_pars line rq).0.path ≡ none
unfolding first_line_pars
first_line_pars_path line rq h = elim (Option-cases (break_at b' ' (c_str line))) [
  | inl no_method ↦ rw (no_method, first_line_pars) h
  | inr ((m, rest), found) ↦
      rw (found, first_line_pars)
        (ground (arith, after_method_path rest (record rq { method = parse_method m }) h))
]
