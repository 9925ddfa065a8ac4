-- ===== src/Container/Model.antt =====
-- The state of the loader in c/qwanto_native.c: a `QwnModel`, and what the process holds for it.
use qwanto.Base.{ℕ, ◌-◌, List, [], ◌∷◌, Option, none, some, ◌==◌, if◌then◌else◌}
use qwanto.Container.Desc.{TensorDesc}
use qwanto.Container.Image.{Image, Header}

-- One index of the parallel arrays `overflow_hashes`, `overflow_offsets` and `overflow_descs`.
pub record Entry : Type 0 where
  pub hash : ℕ
  pub offset : ℕ
  pub desc : TensorDesc

-- `QwnModel`. `fd` is `none` at QWN_BAD_FD and `base` is `none` at NULL. `buffers` is the number of
-- the three overflow pointers that were allocated. The timings of `open_metrics` are left out.
pub record Model : Type 0 where
  pub fd : Option ℕ
  pub base : Option Image
  pub file_size : ℕ
  pub tail_offset : ℕ
  pub hdr : Header
  pub buffers : ℕ
  pub overflow : List Entry
  pub overflow_count : ℕ
  pub inline_hashes : List ℕ

-- What the process holds: open descriptors, mappings, heap blocks.
pub record Held : Type 0 where
  pub fds : List ℕ
  pub maps : ℕ
  pub heap : ℕ

pub record Loader : Type 0 where
  pub model : Model
  pub held : Held

abbrev zero_header : Header
zero_header = record {
  magic = [];
  version = 0;
  flags = 0;
  arch_code = 0;
  n_tensors = 0;
  inline_count = 0;
  n_params = 0;
  arch_dims = [];
  inline_index = [];
  q_dim = 0;
  k_dim = 0;
  v_dim = 0;
}

-- `memset(m, 0, sizeof(*m))`: every pointer is NULL, and `fd` is the number 0.
abbrev pub zero_model : Model
zero_model = record {
  fd = some 0;
  base = none;
  file_size = 0;
  tail_offset = 0;
  hdr = zero_header;
  buffers = 0;
  overflow = [];
  overflow_count = 0;
  inline_hashes = [];
}

-- The kernel's table without one descriptor.
abbrev pub remove : ℕ → List ℕ → List ℕ
remove n [] = []
remove n (m ∷ ms) = if m == n then ms else m ∷ remove n ms

-- `qwn_close_fd(m->fd)`
abbrev pub close_held : Option ℕ → Held → Held
close_held none h = h
close_held (some fd) h = record h { fds = remove fd h.fds }

-- `qwn_unmap`
abbrev pub unmap_held : Option Image → Held → Held
unmap_held none h = h
unmap_held (some file) h = record h { maps = h.maps - 1 }

-- The three `free` calls, each of which gives back a pointer that is not NULL.
abbrev free_held : ℕ → Held → Held
free_held n h = record h { heap = h.heap - n }

-- `qwn_close_fd(m->fd); m->fd = QWN_BAD_FD;`
unfoldable pub close_file : Loader → Loader
close_file s = record { model = record m { fd = none }; held = close_held m.fd s.held }
  where
    open s use {model as m}

-- `qwn_unmap(...); m->base = NULL;` and the same for the descriptor.
unfoldable pub release : Loader → Loader
release s = record {
  model = record m { fd = none; base = none };
  held = close_held m.fd (unmap_held m.base s.held);
}
  where
    open s use {model as m}

-- The `free` calls behind a failed allocation.
unfoldable pub free_buffers : Loader → Loader
free_buffers s = record s { held = free_held s.model.buffers s.held }

-- `qwn_close`
unfoldable pub close : Loader → Loader
close s = record {
  model = zero_model;
  held = free_held m.buffers (close_held m.fd (unmap_held m.base s.held));
}
  where
    open s use {model as m}
