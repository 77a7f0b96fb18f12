-- ===== src/Relay/Server/Answers.antt =====
-- relay_http_handlers.cpp and server_relays.cpp: which requests are answered, and read no null pointer.
use java_io_tserver.Common.{
  ◌≡◌, refl, ap, ◌∙◌, Bool, true, false, ◌&&◌, List, [], ◌∷◌, Option, some, if_both, test_both,
  Bool-cases, inl, inr, ◌>>=◌, ◌==◌, length, arith,
}
use java_io_tserver.Common.Int.{ℤ, ◌==ℤ◌}
use java_io_tserver.Common.Text.{Bytes, codes, atoi}
use java_io_tserver.Http.Request.{c_str}
use java_io_tserver.Relay.Store.{Sqlite}
use java_io_tserver.Relay.Rele.{Relays}
use java_io_tserver.Relay.Rele.Table.{IsRelays}
use java_io_tserver.Relay.Request.{
  Query, Request, is_text, param, znach, get_code, head_code, post_code, put_code,
}
use java_io_tserver.Relay.Buttons.{rr_get_status}
use java_io_tserver.Relay.Buttons.Shown.{rr_get_status_lem}
use java_io_tserver.Relay.Handlers.{
  Outside, number, obrobka_get, send_post, obrobka_post, obrobka_put,
}
use java_io_tserver.Relay.Server.{State, delegate, answered, serve}

-- There is an answer.
unfoldable pub Answers {ℓ} : {A : Type ℓ} → Option A → Type ℓ
Answers {A = A} o = (a : A) × (o ≡ some a)

answers {ℓ} : {A : Type ℓ} (a : A) → Answers (some a)
unfolding Answers
answers a = (a, refl)

Answers->>= {ℓ κ} :
    {A : Type ℓ} {B : Type κ} (o : Option A) (f : A → Option B)
    → Answers o
    → ((a : A) → Answers (f a))
    → Answers (o >>= f)
unfolding Answers
Answers->>= o f (a, e) k = let (b, e2) = k a in (b, ap (λ x. x >>= f) e ∙ e2)

znach-Answers : (pr : Bytes) (qs : List Query) → param pr qs ≡ true → Answers (znach pr qs)
unfolding Answers param znach
znach-Answers pr [] = λ h. absurd (ground (arith, h))
znach-Answers pr (q ∷ qs) =
    elim (Bool-cases (is_text q.param pr))
      as (λ z. param pr (q ∷ qs) ≡ true → Answers (znach pr (q ∷ qs))) [
        | inl same ↦ rw same (λ h. (c_str q.znach, refl))
        | inr other ↦ rw other (λ h. znach-Answers pr qs h)
      ]

number-Answers : (pr : Bytes) (qs : List Query) → param pr qs ≡ true → Answers (number pr qs)
unfolding Answers
number-Answers pr qs h = let (t, e) = znach-Answers pr qs h in (atoi t, rw (e, number) refl)

module _ {S : Type 0} (out : Outside) (sql : Sqlite S) (rq : Request) (st : Relays S)
    (h : IsRelays st.rele_list) (user_given : param (codes "userID") rq.query ≡ true)
    (sn_given : param (codes "sn") rq.query ≡ true) where
  user_read : Answers (number (codes "userID") rq.query)
  user_read = number-Answers (codes "userID") rq.query user_given

  serial_read : Answers (number (codes "sn") rq.query)
  serial_read = number-Answers (codes "sn") rq.query sn_given

  status : (user_id : ℤ) → Answers (rr_get_status sql out.def_rand out.t_time user_id st)
  unfolding Answers
  status user_id =
      let (rs2, e) = rr_get_status_lem sql out.def_rand out.t_time user_id st h in (_, e)

  obrobka_get-Answers : (head : Bool) → Answers (obrobka_get out sql head rq st)
  unfolding obrobka_get
  obrobka_get-Answers head =
      let has_user = param (codes "userID") rq.query in
      let has_sn = param (codes "sn") rq.query in
      if_both Answers (is_text rq.path (codes "/get_status") && has_user) _ _
        (Answers->>= _ _ user_read (λ u. Answers->>= _ _ (status u) (λ r. answers _)))
        (if_both Answers (is_text rq.path (codes "/get_knopky") && has_user) _ _
          (Answers->>= _ _ user_read (λ u. (answers _)))
          (if_both Answers (is_text rq.path (codes "/get_gadgets") && has_user) _ _
            (Answers->>= _ _ user_read (λ u. (answers _)))
            (if_both Answers (is_text rq.path (codes "/get_relays") && (has_user && has_sn)) _ _
              (Answers->>= _ _ user_read (λ u. Answers->>= _ _ serial_read (λ n. (answers _))))
              (if_both Answers (is_text rq.path (codes "/log_file") && (has_user && has_sn)) _ _
                (Answers->>= _ _ serial_read (λ n. Answers->>= _ _ user_read (λ u. (answers _))))
                (answers _)))))

  send_post-Answers : (r : Bytes × Relays S) → Answers (send_post out sql rq r)
  unfolding send_post
  send_post-Answers (body, st2) =
      if_both Answers (length rq.query == 5 && is_text rq.path (codes "/update_state")) _ _
        (Answers->>= _ _ serial_read (λ n. (answers _))) (answers _)

  obrobka_post-Answers : Answers (obrobka_post out sql rq st)
  unfolding obrobka_post
  obrobka_post-Answers =
      if_both Answers (is_text rq.path (codes "/update_state")) _ _ (send_post-Answers _) (
        if_both Answers (is_text rq.path (codes "/log_file")) _ _ (send_post-Answers _) (
          if_both Answers (is_text rq.path (codes "/set_relay_name")) _ _
            (Answers->>= _ _ serial_read
              (λ n. Answers->>= _ _ user_read (λ u. send_post-Answers _)))
            (if_both Answers (is_text rq.path (codes "/set_relay_names")) _ _
              (Answers->>= _ _ serial_read
                (λ n. Answers->>= _ _ user_read (λ u. send_post-Answers _)))
              (answers _))))

  button :
      (a b : Bool)
      → (a && (b && param (codes "button") rq.query)) ≡ true
      → Answers (number (codes "button") rq.query)
  button true true e = number-Answers (codes "button") rq.query e
  button true false e = absurd (ground (arith, e))
  button false b e = absurd (ground (arith, e))

  obrobka_put-Answers : Answers (obrobka_put out sql rq st)
  unfolding obrobka_put
  obrobka_put-Answers =
      let put_path = is_text rq.path (codes "/put_status") in
      test_both Answers
        (put_path && (param (codes "sn") rq.query && param (codes "button") rq.query)) _ _
        (λ e. Answers->>= _ _ serial_read (λ n.
          Answers->>= _ _ (button put_path (param (codes "sn") rq.query) e)
            (λ b. Answers->>= _ _ user_read (λ u. (answers _)))))
        (λ e. (answers _))

  delegate-Answers : Answers (delegate out sql rq st)
  unfolding delegate
  delegate-Answers = if_both Answers (rq.method ==ℤ get_code) _ _ (obrobka_get-Answers false) (
      if_both Answers (rq.method ==ℤ head_code) _ _ (obrobka_get-Answers true) (
        if_both Answers (rq.method ==ℤ post_code) _ _ obrobka_post-Answers
          (if_both Answers (rq.method ==ℤ put_code) _ _ obrobka_put-Answers (answers _))))

module _ {S : Type 0} (out : Outside) (sql : Sqlite S) where
  answered-Answers :
      (hide : Bool) (rq : Request) (st : Relays S)
      → Answers (delegate out sql rq st)
      → Answers (answered out sql hide rq st)
  unfolding answered
  answered-Answers hide rq st a = Answers->>= (delegate out sql rq st) _ a (λ r. answers _)

  -- On a well formed list of relays, a request that names a user and a relay and has no command is
  -- answered: whatever its method, its path and its other parameters, and whatever the database
  -- holds, no null pointer is read.
  pub serve-Answers :
      (rq : Request) (s : State S)
      → IsRelays s.relays.rele_list
      → param (codes "userID") rq.query ≡ true
      → param (codes "sn") rq.query ≡ true
      → param (codes "command") rq.query ≡ false
      → Answers (serve out sql rq s)
  unfolding serve
  serve-Answers rq s h user_given sn_given plain = rw plain (
      answered-Answers s.hide_log rq s.relays
        (delegate-Answers out sql rq s.relays h user_given sn_given))
