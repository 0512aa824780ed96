-- ===== src/Thread/Handles.antt =====
-- pthread, with a handle that was neither joined nor detached, or was: an instance of the interface.
use cpp_practise.Base.{Option, none, some, refl}
use cpp_practise.Thread.{Pthread}

pub data Handle : Type 0 where
  open_handle joined detached : Handle

abbrev join_handle : Handle → Option Handle
join_handle open_handle = some joined
join_handle _ = none

abbrev detach_handle : Handle → Option Handle
detach_handle open_handle = some detached
detach_handle _ = none

abbrev pub handles : Pthread Handle
handles = record {
  created = open_handle;
  join = join_handle;
  detach = detach_handle;
  joins = (joined, refl, refl, refl);
  detaches = (detached, refl, refl, refl);
}
