-- ===== src/Tests/Devices.antt =====
-- The device lists of src/libusby.c with one and two devices.
use libusby.Base.{◌+◌, ◌*◌, ◌≤◌, ◌≡◌, refl, true, [], ◌∷◌, none, some, ok}
use libusby.Devices.Ring.{
  Links, IsRing, init_devlist_head, insert_before_devlist_node, remove_devlist_node,
}
use libusby.Devices.Ring.Chain.{first_of_ring}
use libusby.Devices.Ring.Order.{
  init_devlist_head-IsRing, insert_before_devlist_node-IsRing, remove_devlist_node-IsRing,
}
use libusby.Devices.Array.{
  DeviceList, no_devices, IsDeviceList, no_devices-IsDeviceList, append_device_list,
  append_device_list-IsDeviceList,
}

-- Memory before the head is initialised, and a ring of the head 7 and the node 8.
abbrev pub fresh : Links
fresh = record { next = λ a. 0; prev = λ a. 0 }

abbrev pub one_node : Links
one_node = insert_before_devlist_node 8 7 (init_devlist_head 7 fresh)

pub one_node-IsRing : IsRing one_node 7 (8 ∷ [])
one_node-IsRing =
    insert_before_devlist_node-IsRing (init_devlist_head 7 fresh) 7 [] [] 8
      (init_devlist_head-IsRing 7 fresh) refl

remove_devlist_node-IsRing_example :
    IsRing (remove_devlist_node 8 one_node).0 7 []
    × ((remove_devlist_node 8 one_node).1 ≡ first_of_ring [] 7)
remove_devlist_node-IsRing_example = remove_devlist_node-IsRing one_node 7 [] [] 8 one_node-IsRing

append_device_list-IsDeviceList_example :
    (l' : DeviceList) × (append_device_list true none 8 no_devices ≡ ok l')
    × IsDeviceList l' (8 ∷ [])
    × (l'.capacity ≤ 0 + 2 * (0 + 1))
append_device_list-IsDeviceList_example =
    append_device_list-IsDeviceList none 8 no_devices [] no_devices-IsDeviceList

abbrev one_device : DeviceList
one_device = record { count = 1; capacity = 2; list = some 8 ∷ none ∷ [] }
