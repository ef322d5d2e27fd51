-- ===== src/Normalization.antt =====
-- `normalize_observation` of src/osbench/normalization.py.
pub mod Trees
pub mod Blind
use os_bench.Common.{
  String, Bool, true, false, not, ◌&&◌, ◌||◌, List, [], ◌∷◌, ◌==◌, Option, none, some, elem, keep,
  if◌then◌else◌,
}
use os_bench.Common.Sort.{sort_by}
use os_bench.Common.Text.{text_leb}
use os_bench.Normalization.Trees.{
  Json, null, boolean, number, text, array, object, Elements, none_left, element, Members, no_more,
  member, elements_of, list_of,
}

-- What Python's strings and `re` give: `lower`, `endswith`, `in`, `repr`, and the two `re.sub`.
pub record TextMethods : Type 0 where
  pub lower : String → String
  pub ends_with : String → String → Bool
  pub contains : String → String → Bool
  pub repr : Json → String
  pub sub_osbench : String → String
  pub sub_tmp : String → String

abbrev pub pid_keys : List String
pid_keys =
    "pid" ∷ "process_id" ∷ "child_pid" ∷ "parent_pid" ∷ "child" ∷ "parent" ∷ "creator_pid"
    ∷ "target_pid" ∷ []

abbrev pub ppid_keys : List String
ppid_keys = "ppid" ∷ "parent_process_id" ∷ []

abbrev pub tid_keys : List String
tid_keys = "tid" ∷ "thread_id" ∷ "thread" ∷ []

abbrev pub inode_keys : List String
inode_keys = "inode" ∷ "ino" ∷ "st_ino" ∷ "inode_number" ∷ []

abbrev pub port_keys : List String
port_keys = "port" ∷ "local_port" ∷ "remote_port" ∷ "ephemeral_port" ∷ []

abbrev pub host_keys : List String
host_keys = "hostname" ∷ "kernel" ∷ "kernel_release" ∷ "platform" ∷ "machine" ∷ "nodename" ∷ []

-- `value.pop(key, None)`
unfoldable pub remove_member : String → Members → Members
remove_member k no_more = no_more
remove_member k (member j v rest) = if k == j then rest else member j v (remove_member k rest)

-- `out[key] = "<…>"` or `out[key] = walk(raw)`
abbrev pub masked_value : Option String → Json → Json
masked_value (some mask) walked = text mask
masked_value none walked = walked

module _ (methods : TextMethods) (rules : List String) where
  -- the text that replaces the value at a key, if a rule masks it
  unfoldable pub placeholder : String → Option String
  placeholder key =
      let lower = methods.lower key in
      if elem "pid" rules && (elem lower pid_keys || methods.ends_with lower "_pid")
      then some "<PID>"
      else if elem "ppid" rules && elem lower ppid_keys
      then some "<PPID>"
      else if elem "tid" rules && (elem lower tid_keys || methods.ends_with lower "_tid")
      then some "<TID>"
      else if elem "inode" rules && elem lower inode_keys
      then some "<INODE>"
      else if elem "timestamps" rules
          && (methods.contains "timestamp" lower
              || (methods.ends_with lower "_time"
                  || (methods.ends_with lower "_time_ns"
                      || elem lower ("atime" ∷ "mtime" ∷ "ctime" ∷ "btime" ∷ []))))
      then some "<TIME>"
      else if elem "ephemeral_port" rules && elem lower port_keys
      then some "<PORT>"
      else if elem "addresses" rules
          && (methods.contains "address" lower || elem lower ("addr" ∷ "pointer" ∷ "ptr" ∷ []))
      then some "<ADDRESS>"
      else if elem "host_metadata" rules && elem lower host_keys
      then some "<HOST>"
      else none

  abbrev pub sorted_elements : Elements → Elements
  sorted_elements xs =
      elements_of
        (sort_by (λ (a b : Json). text_leb (methods.repr a) (methods.repr b)) (list_of xs))

  -- the value at a key whose arrays are sorted
  abbrev pub sorted_array : Json → Json
  sorted_array (array xs) = array (sorted_elements xs)
  sorted_array other = other

  -- `for key, raw in list(out.items())`: the arrays at the given keys
  unfoldable pub sort_members : List String → Members → Members
  sort_members at no_more = no_more
  sort_members at (member k v rest) =
      member k (if elem k at then sorted_array v else v) (sort_members at rest)

  unfoldable pub order_members : Members → Members
  unfolding sort_members
  order_members out =
      let listed =
        if elem "directory_order" rules
        then sort_members ("entries" ∷ "directory_entries" ∷ []) out
        else out in
      if elem "scheduler_order" rules
      then sort_members ("events" ∷ "schedule" ∷ "thread_order" ∷ []) listed
      else listed

  unfoldable mutual
    unfolding placeholder order_members

    pub walk : Json → Json
    walk (object members) = object (order_members (walk_members members))
    walk (array items) = array (walk_elements items)
    walk (text s) =
        text (if elem "temporary_paths" rules then methods.sub_tmp (methods.sub_osbench s) else s)
    walk (number n) = number n
    walk (boolean b) = boolean b
    walk null = null

    pub walk_elements : Elements → Elements
    walk_elements none_left = none_left
    walk_elements (element x xs) = element (walk x) (walk_elements xs)

    pub walk_members : Members → Members
    walk_members no_more = no_more
    walk_members (member k raw rest) =
        let walked = walk raw in member k (masked_value (placeholder k) walked) (walk_members rest)

-- `observables` and `normalization` are the Contract's.
abbrev pub timed : List String → Members → Members
timed observables observation =
    if not (elem "timing" observables) && not (elem "resource_usage" observables)
    then remove_member "duration_ns" observation
    else observation

abbrev pub rules_of : List String → List String
rules_of normalization = keep (λ rule. not (rule == "none")) normalization

-- `if not rules: return value`
abbrev pub if_rules : List String → Members → Members → Members
if_rules [] value walked = value
if_rules (_ ∷ _) value walked = walked

unfoldable pub normalize_observation : TextMethods → List String → List String → Members → Members
unfolding remove_member walk
normalize_observation methods observables normalization observation =
    let value = timed observables observation in
    let walked =
      order_members methods (rules_of normalization)
        (walk_members methods (rules_of normalization) value) in
    if_rules (rules_of normalization) value walked
