-- ===== src/Tui/FormNavigation.antt =====
-- userinterfaces/tui/features/shared/form_navigation.rs.
use timelocked.Common.{Option, none, some}
use timelocked.Tui.TextField.{
  KeyCode, key_left, key_right, other, key_tab, key_back_tab, key_up, key_down,
}

pub data FocusNavigationAxis : Type 0 where
  vertical horizontal : FocusNavigationAxis

module _ {ℓ} {F : Type ℓ} (next prev : F → F) (focus : F) where
  unfoldable pub cycled_focus : KeyCode → FocusNavigationAxis → Option F
  cycled_focus (other key_tab) axis = some (next focus)
  cycled_focus (other key_back_tab) axis = some (prev focus)
  cycled_focus (other key_down) vertical = some (next focus)
  cycled_focus (other key_up) vertical = some (prev focus)
  cycled_focus key_right horizontal = some (next focus)
  cycled_focus key_left horizontal = some (prev focus)
  cycled_focus code axis = none
