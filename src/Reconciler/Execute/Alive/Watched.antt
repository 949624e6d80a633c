-- ===== src/Reconciler/Execute/Alive/Watched.antt =====
-- The managers of the reconciler with a note beside the host: whether the last call that starts,
-- stops or deletes one tailnet was a start.
use hydrascale.Common.{
  true, Bool, false, ◌||◌, Text, text_eq, same_text, ◌==◌, ==_iff, if◌then◌else◌, ◌≡◌, arith,
}
use hydrascale.Namespaces.{namespace_name}
use hydrascale.Reconciler.Execute.{Managers}
use hydrascale.Reconciler.Execute.Alive.{Upkeep}

pub own_start : (id : Text) (noted : Bool) → (id == id || noted) ≡ true
own_start id noted = ground (arith, ==_iff id id)

pub any_start : (own noted : Bool) → noted ≡ true → (own || noted) ≡ true
any_start own noted h = ground (arith, h)

module _ {W : Type 0} (m : Managers W) (id : Text) where
  -- Every call goes to the managers as it is; a call of `start` notes true, and a call of `stop` for
  -- the tailnet or of `delete` for its namespace notes false.
  unfoldable pub watched : Managers (W × Bool)
  watched = record {
    get_name = m.get_name;
    load_config = λ w. m.load_config w.0;
    create = λ j w. (let r = m.create j w.0 in ((r.0, w.1), r.1));
    delete = λ ns w.
        (let r = m.delete ns w.0 in ((r.0, if ns == m.get_name id then false else w.1), r.1));
    write_resolv_conf = λ ns w. (m.write_resolv_conf ns w.0, w.1);
    setup_host_access =
        λ ns publish on w. (let r = m.setup_host_access ns publish on w.0 in ((r.0, w.1), r.1));
    teardown_host_access = λ ns w. (let r = m.teardown_host_access ns w.0 in ((r.0, w.1), r.1));
    has_host_access = m.has_host_access;
    forget_tailnet = λ j w. (let r = m.forget_tailnet j w.0 in ((r.0, w.1), r.1));
    remove_state_dir = λ j w. (let r = m.remove_state_dir j w.0 in ((r.0, w.1), r.1));
    start = λ j ns allow w. (let r = m.start j ns allow w.0 in ((r.0, j == id || w.1), r.1));
    stop = λ ns j w. (let r = m.stop ns j w.0 in ((r.0, if j == id then false else w.1), r.1));
    authorize = λ j ns key url w. (let r = m.authorize j ns key url w.0 in ((r.0, w.1), r.1));
    refresh_dns_if_ready = λ j ns w. (let r = m.refresh_dns_if_ready j ns w.0 in ((r.0, w.1), r.1));
    sync_routes_of = λ ns j w. (let r = m.sync_routes_of ns j w.0 in ((r.0, w.1), r.1));
    sync_host = λ j ns cfg w. (let r = m.sync_host j ns cfg w.0 in ((r.0, w.1), r.1));
  }

  -- GetName gives the namespaces of two tailnets two names.
  pub names_apart :
      ((j : Text) → m.get_name j ≡ namespace_name j)
      → (j : Text) → (j == id) ≡ false
      → (m.get_name j == m.get_name id) ≡ false
  unfolding namespace_name same_text
  names_apart named j other = rw (named j, named id) other

  unfoldable pub watched-Upkeep : ((j : Text) → m.get_name j ≡ namespace_name j) → Upkeep watched id
  unfolding watched
  watched-Upkeep named = record {
    is_up = λ w. w.1;
    names_apart = names_apart named;
    starts = λ ns allow w. own_start id w.1;
    keeps_create = λ j w h. h;
    keeps_delete = λ ns w other h. rw other h;
    keeps_resolv_conf = λ ns w h. h;
    keeps_setup = λ ns publish on w h. h;
    keeps_teardown = λ ns w h. h;
    keeps_forget = λ j w h. h;
    keeps_state_dir = λ j w h. h;
    keeps_start = λ j ns allow w h. any_start (j == id) w.1 h;
    keeps_stop = λ ns j w other h. rw other h;
    keeps_authorize = λ j ns key url w h. h;
    keeps_refresh = λ j ns w h. h;
    keeps_routes = λ ns j w h. h;
    keeps_host = λ j ns cfg w h. h;
  }
