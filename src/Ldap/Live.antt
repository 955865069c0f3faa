-- ===== src/Ldap/Live.antt =====
-- pkg/ldap/client.go: its operations keep a world open, whatever they return.
use ds_operator.Prelude.{
  ◌≡◌, refl, String, Error, Result, Action, ok, err, panic, continue, handle, ◌>>=◌, try_else, pure,
  raise, ignore, Finishes, ◌≢◌, ok-ne-panic, ok-ne-err, sym,
}
use ds_operator.Kube.Client.Live.{LivelyAt}
use ds_operator.Ldap.{
  Directory, DsConnection, bind_admin, connect, closing, bind_password, cant_open, cant_bind,
}

module _ {W : Type 0} (Open : W → Type 0) where
  -- From a world that is open the action leaves one that is open.
  abbrev pub Steady : {A : Type 0} → Action W A → Type 0
  Steady m = (w : W) → Open w → Open (m w).1

  continue-Steady :
      {A B : Type 0} (r : Result A) (w : W) (f : A → Action W B)
      → Open w
      → ((a : A) → Steady (f a))
      → Open (continue r f w).1
  continue-Steady (ok a) w f o g = g a w o
  continue-Steady (err e) w f o g = o
  continue-Steady panic w f o g = o

  pub Steady-bind :
      {A B : Type 0} (m : Action W A) (f : A → Action W B)
      → Steady m
      → ((a : A) → Steady (f a))
      → Steady (m >>= f)
  Steady-bind m f h g w o = continue-Steady (m w).0 (m w).1 f (h w o) g

  handle-Steady :
      {A B : Type 0} (r : Result A) (w : W) (f : A → Action W B) (g : Error → Action W B)
      → Open w
      → ((a : A) → Steady (f a))
      → ((e : Error) → Steady (g e))
      → Open (handle r f g w).1
  handle-Steady (ok a) w f g o h k = h a w o
  handle-Steady (err e) w f g o h k = k e w o
  handle-Steady panic w f g o h k = o

  pub Steady-try :
      {A B : Type 0} (m : Action W A) (f : A → Action W B) (g : Error → Action W B)
      → Steady m
      → ((a : A) → Steady (f a))
      → ((e : Error) → Steady (g e))
      → Steady (try_else m f g)
  Steady-try m f g h k l w o = handle-Steady (m w).0 (m w).1 f g (h w o) k l

  Finishes-by_result :
      {A : Type 0} (m : Action W A) (w w' : W) (r : Result A)
      → m w ≡ (r, w')
      → Open w'
      → Finishes m w (λ a w'. Open w') (λ e w'. Open w') (λ w'. Open w')
  Finishes-by_result m w w' (ok a) h o = Finishes.returns a w' h o
  Finishes-by_result m w w' (err e) h o = Finishes.fails e w' h o
  Finishes-by_result m w w' panic h o = Finishes.panics w' h o

  pub Finishes-Steady :
      {A : Type 0} (m : Action W A) (w : W)
      → Open (m w).1
      → Finishes m w (λ a w'. Open w') (λ e w'. Open w') (λ w'. Open w')
  Finishes-Steady m w o = Finishes-by_result m w (m w).1 (m w).0 refl o

  -- What is done to the directory server does not make the API server refuse anything.
  pub record IsApart (dir : Directory W) : Type 0 where
    pub dial : (url : String) → Steady (dir.dial url)
    pub bind : (c : dir.Conn) (dn password : String) → Steady (dir.bind c dn password)
    pub close : (c : dir.Conn) → Steady (dir.close c)
    pub close_unopened : Steady dir.close_unopened
    pub modify : (c : dir.Conn) (dn password : String) → Steady (dir.password_modify c dn password)

  -- The directory server can be reached throughout, and not at all.
  abbrev pub Reached : Directory W → Type 0
  Reached dir = (url : String) (w : W) (e : Error) → Open w → (dir.dial url w).0 ≢ err e

  abbrev pub Unreached : Directory W → Type 0
  Unreached dir = (url : String) (w : W) (c : dir.Conn) → Open w → (dir.dial url w).0 ≢ ok c

  module _ (dir : Directory W) (apart : IsApart dir) where
    bind_admin-Steady :
        (url dn password : String) (l : dir.Conn) → Steady (bind_admin dir url dn password l)
    unfolding bind_admin
    bind_admin-Steady url dn password l =
        Steady-try (dir.bind l dn password)
          (λ x. pure (record { url = url; dn = dn; password = password; ldap = l }))
          (λ e. ignore (dir.close l) >>= (λ x. raise (cant_bind url dn (dir.error_text e))))
          (apart.bind l dn password) (λ x w o. o)
          (λ e.
            Steady-bind (ignore (dir.close l)) (λ x. raise (cant_bind url dn (dir.error_text e)))
              (Steady-try (dir.close l) (λ x. pure tt) (λ e. pure tt) (apart.close l) (λ x w o. o)
                (λ e w o. o))
              (λ x w o. o))

    pub connect-Steady : (url dn password : String) → Steady (connect dir url dn password)
    unfolding connect
    connect-Steady url dn password =
        Steady-try (dir.dial url) (bind_admin dir url dn password)
          (λ e. raise (cant_open url dn (dir.error_text e))) (apart.dial url)
          (λ l. bind_admin-Steady url dn password l) (λ e w o. o)

    undialled :
        (url dn : String) (f : dir.Conn → Action W (DsConnection dir)) (r : Result dir.Conn) (w : W)
        (c : DsConnection dir)
        → ((t : dir.Conn) → r ≢ ok t)
        → (handle r f (λ e. raise (cant_open url dn (dir.error_text e))) w).0 ≢ ok c
    undialled url dn f (ok t) w c never h = never t refl
    undialled url dn f (err e) w c never h = ok-ne-err h
    undialled url dn f panic w c never h = ok-ne-panic (sym h)

    pub connect-Unreached :
        Unreached dir
        → (url dn password : String) (w : W) (c : DsConnection dir) → Open w
        → (connect dir url dn password w).0 ≢ ok c
    unfolding connect
    connect-Unreached unreached url dn password w c o =
        undialled url dn (bind_admin dir url dn password) (dir.dial url w).0 (dir.dial url w).1 c
          (λ t. unreached url w t o)

    closing-Steady :
        {A : Type 0} (c : Action W (Unit {0})) (r : Result A) → Steady c → Steady (closing dir c r)
    closing-Steady c r h = Steady-try c (λ x w. (r, w)) (λ e w. (r, w)) h (λ x w o. o) (λ e w o. o)

    pub bind_password-Steady :
        (ds : DsConnection dir) (dn password : String) → Steady (bind_password dir ds dn password)
    unfolding bind_password
    bind_password-Steady ds dn password =
        Steady-try (dir.dial ds.url)
          (λ t w. let done = dir.bind t dn password w in closing dir (dir.close t) done.0 done.1)
          (λ e. closing dir dir.close_unopened (err e)) (apart.dial ds.url)
          (λ t w o.
            closing-Steady (dir.close t) (dir.bind t dn password w).0 (apart.close t)
              (dir.bind t dn password w).1 (apart.bind t dn password w o))
          (λ e. closing-Steady dir.close_unopened (err e) apart.close_unopened)

    closed :
        {A : Type 0} (q : Result (Unit {0})) (r : Result A) (w : W)
        → Open w
        → ((e : Error) → ◌≡◌ {A = Result A} r (err e) → ⊥)
        → LivelyAt Open (handle q (λ x w. (r, w)) (λ e w. (r, w)) w)
    closed (ok x) r w o fine = (fine, o)
    closed (err e) r w o fine = (fine, o)
    closed panic r w o fine = ((λ e h. cc), o)

    -- The deferred close lets a result that is no error be.
    pub closing-LivelyAt :
        {A : Type 0} (c : Action W (Unit {0})) (done : Result A × W)
        → Steady c
        → LivelyAt Open done
        → LivelyAt Open (closing dir c done.0 done.1)
    closing-LivelyAt c done h (fine, o) = closed (c done.1).0 done.0 (c done.1).1 (h done.1 o) fine
