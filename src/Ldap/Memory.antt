-- ===== src/Ldap/Memory.antt =====
-- A directory server kept in memory beside the API server: go-ldap as its laws say, for examples.
use ds_operator.Prelude.{
  ok-ne-err, sym, [], ℕ, suc, ◌-◌, String, ◌==◌, Bool, true, false, Option, some, none, ◌≡◌, ◌≢◌,
  refl, arith, lookup, insert, lookup-insert, agrees, eq_iff, Result, ok, err, panic, external,
  Ends, if◌then◌else◌, Bool-cases, inl, inr,
}
use ds_operator.Kube.Memory.{Server, memory, get}
use ds_operator.Kube.Memory.Live.{Up}
use ds_operator.Ldap.{Directory}
use ds_operator.Ldap.Live.{IsApart, Reached}
use ds_operator.Ldap.Laws.{View, Moved, Nobody, Still, IsLawful, Moved-refl}

unfoldable pub passes : String → Option String → Bool
unfolding agrees
passes password kept = if password == "" then false else agrees password kept

-- The server's own password for an empty one.
abbrev pub or_generated : String → String
or_generated password = if password == "" then "generated" else password

-- A close on the nil connection is a panic.
unfoldable pub local : Directory Server
unfolding passes insert lookup
local = record {
  Conn = Unit {0};
  dial = λ url w.
      if w.reachable
      then (ok tt, record w { connections = suc w.connections })
      else (err (external "unreachable"), w);
  bind = λ c dn password w.
      (if passes password (lookup dn w.directory) then ok tt else err (external "refused"), w);
  close = λ c w. (ok tt, record w { connections = w.connections - 1 });
  close_unopened = λ w. (panic, w);
  password_modify = λ c dn password w.
      (ok tt, record w { directory = insert dn (or_generated password) w.directory });
  add = λ c dn attributes w. (ok tt, w);
  search = λ c request w. (record { entries = some []; error = none }, w);
  error_text = λ e. "refused";
}

abbrev pub local_view : View Server
local_view = record { password_of = λ dn w. lookup dn w.directory; opened = λ w. w.connections }

passes-some :
    (password : String) (kept : Option String) → passes password kept ≡ true → kept ≡ some password
unfolding passes agrees
passes-some password none h = ground arith
passes-some password (some p) h = ground (arith, eq_iff password p)

dial_ends :
    (url : String) (w : Server)
    → Ends
        (local.dial url)
        w
        (λ _ w'. Still memory local local_view w w' × (w'.connections ≡ suc w.connections))
        (λ _ w'. Moved memory local local_view Nobody w w')
unfolding local memory get
dial_ends url w = elim (Bool-cases w.reachable) [
  | inl e ↦
      Ends.returns tt (record w { connections = suc w.connections }) (ground arith)
        (record { objects = λ k key. refl; passwords = λ dn. refl }, refl)
  | inr e ↦
      Ends.fails (external "unreachable") w (ground arith) (Moved-refl memory local local_view w)
]

bind_ends :
    (c : local.Conn) (dn password : String) (w : Server)
    → Ends
        (local.bind c dn password)
        w
        (λ _ w'.
          Moved memory local local_view Nobody w w' × (lookup dn w.directory ≡ some password))
        (λ _ w'. Moved memory local local_view Nobody w w')
unfolding local
bind_ends c dn password w = elim (Bool-cases (passes password (lookup dn w.directory))) [
  | inl e ↦
      Ends.returns tt w (rw e refl)
        (Moved-refl memory local local_view w, passes-some password (lookup dn w.directory) e)
  | inr e ↦ Ends.fails (external "refused") w (rw e refl) (Moved-refl memory local local_view w)
]

modify_ends :
    (c : local.Conn) (dn password : String) (w : Server)
    → Ends
        (local.password_modify c dn password)
        w
        (λ _ w'.
          Moved memory local local_view (λ dn'. dn' ≡ dn) w w'
          × (password ≢ "" → lookup dn w'.directory ≡ some password))
        (λ _ w'. Moved memory local local_view Nobody w w')
unfolding local memory get
modify_ends c dn password w =
    Ends.returns tt (record w { directory = insert dn (or_generated password) w.directory }) refl
      (
        record {
          objects = λ k key. refl;
          opened = refl;
          others = λ d n.
              ground
                (arith, n, lookup-insert dn d (or_generated password) w.directory, eq_iff dn d);
        },
        λ n. ground (
          arith,
          n,
          lookup-insert dn dn (or_generated password) w.directory,
          eq_iff dn dn,
          eq_iff password "",
        ),
      )

close_ends :
    (c : local.Conn) (w : Server) (n : ℕ)
    → w.connections ≡ suc n
    → Ends
        (local.close c)
        w
        (λ _ w'. Still memory local local_view w w' × (w'.connections ≡ n))
        (λ _ w'. Still memory local local_view w w' × (w'.connections ≡ n))
unfolding local memory get
close_ends c w n h =
    Ends.returns tt (record w { connections = w.connections - 1 }) refl
      (record { objects = λ k key. refl; passwords = λ dn. refl }, omega arith)

pub local-IsLawful : IsLawful memory local local_view
unfolding local
local-IsLawful = record {
  dial_outcome = dial_ends;
  bind_outcome = bind_ends;
  modify_outcome = modify_ends;
  close_outcome = close_ends;
  close_unopened_outcome = λ w. Moved-refl memory local local_view w;
}

abbrev dialled : Bool → Server → Result (Unit {0}) × Server
dialled b w =
    if b
    then (ok tt, record w { connections = suc w.connections })
    else (err (external "unreachable"), w)

dialled-Up : (b : Bool) (w : Server) → Up w → Up (dialled b w).1
dialled-Up true w up = up
dialled-Up false w up = up

pub local-IsApart : IsApart Up local
unfolding local
local-IsApart = record {
  dial = λ url w up. dialled-Up w.reachable w up;
  bind = λ c dn password w up. up;
  close = λ c w up. up;
  close_unopened = λ w up. up;
  modify = λ c dn password w up. up;
}

pub local-Reached : Reached Up local
unfolding local
local-Reached url w e up = rw up.1 (λ h. ok-ne-err (sym h))
